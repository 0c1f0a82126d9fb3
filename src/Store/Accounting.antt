-- ===== src/Store/Accounting.antt =====
-- Every native handle that is opened is held by the store or closed, once.
use dmn_cpp.Base.{
  ℕ, ◌+◌, ◌≡◌, refl, Bool, not, ◌&&◌, List, [], ◌∷◌, some, if◌then◌else◌, arith, Option-cases, inl,
  inr,
}
use dmn_cpp.Handle.Ownership.{count, count-append}
use dmn_cpp.Status.{Codes, Answer, is_not_found, throw_if_error, is_error}
use dmn_cpp.Store.{
  Shared, Entry, Store, close, lookup, erase, insert, keep_live, close_stale, remove_stale, find,
  open_impl, get_handle,
}

-- The handles that the entries hold.
abbrev pub held : List Entry → List ℕ
held [] = []
held (e ∷ es) = e.handle ∷ held es

-- How often a handle is held or closed; the null handle is not counted.
abbrev pub total : ℕ → Store → ℕ
total c st = count c st.closed + count c (held st.entries)

count-close :
    (c h : ℕ) (closed : List ℕ) → count c (close h closed) ≡ count c closed + count c (h ∷ [])
unfolding close
count-close c h closed = ground (arith, count-append c closed (h ∷ []))

lookup-erase-count :
    (c a : ℕ) (es : List Entry) (e : Entry)
    → lookup a es ≡ some e
    → count c (held es) ≡ count c (held (erase a es)) + count c (e.handle ∷ [])
unfolding lookup erase
lookup-erase-count c a [] e p = cc
lookup-erase-count c a (x ∷ es) e p = ground (arith, lookup-erase-count c a es e)

module _ (alive : ℕ → Bool) where
  stale-count :
      (c : ℕ) (es : List Entry) (closed : List ℕ)
      → count c (close_stale alive es closed) + count c (held (keep_live alive es))
        ≡ count c closed + count c (held es)
  unfolding close_stale keep_live
  stale-count c [] closed = refl
  stale-count c (e ∷ es) closed = ground (
    arith,
    stale-count c es closed,
    stale-count c es (close e.handle closed),
    count-close c e.handle closed,
  )

  remove_stale-total : (c : ℕ) (st : Store) → total c (remove_stale alive st) ≡ total c st
  unfolding remove_stale
  remove_stale-total c st = stale-count c st.entries st.closed

  find-total : (c : ℕ) (s : Shared) (st : Store) → total c (find alive s st).1 ≡ total c st
  unfolding find
  find-total c s st = elim (Option-cases (lookup s.address st.entries)) [
    | inl missing ↦ rw (missing, find)
    | inr (e, there) ↦ ground (
      arith,
      there,
      count-close c e.handle st.closed,
      lookup-erase-count c s.address st.entries e there,
    )
  ]

insert-total :
    (c handle : ℕ) (s : Shared) (st : Store)
    → total c (insert s handle st).1 ≡ total c st + count c (handle ∷ [])
unfolding insert
insert-total c handle s st = ground (arith, count-close c handle st.closed)

-- Whether the native call opened a handle.
abbrev pub opens : Codes → Answer → Bool
opens codes answer = not (is_not_found codes answer.status) && not (is_error answer.status)

abbrev pub opened_by : ℕ → Bool → Answer → ℕ
opened_by c b answer = if b then count c (answer.handle ∷ []) else 0

module _ (alive : ℕ → Bool) (codes : Codes) where
  open_impl-total :
      (c : ℕ) (answer : Answer) (s : Shared) (st : Store)
      → total c (open_impl alive codes answer s st).1
        ≡ total c st + opened_by c (opens codes answer) answer
  unfolding open_impl throw_if_error
  open_impl-total c answer s st =
      ground (
        arith,
        remove_stale-total alive c st,
        insert-total c answer.handle s (remove_stale alive st),
      )

  -- A call for a handle adds to what is held or closed exactly the handle that its native call
  -- opened, if it made one and that succeeded; otherwise no handle appears, goes or changes from
  -- held to lost.
  pub get_handle-total :
      (c : ℕ) (answer : Answer) (s : Shared) (st : Store)
      → let (result, after, called) = get_handle alive codes answer s st in
        total c after ≡ total c st + opened_by c (called && opens codes answer) answer
  unfolding get_handle
  get_handle-total c answer s st = ground (
    arith,
    find-total alive c s (remove_stale alive st),
    remove_stale-total alive c st,
    open_impl-total c answer s (find alive s (remove_stale alive st)).1,
  )
