-- ===== src/Store/Caching.antt =====
-- What the store hands out: never the handle of an object that is gone, and a handle that was
-- opened once is found again.
use dmn_cpp.Base.{
  ℕ, ◌≡◌, ◌⊎◌, refl, Bool, true, false, ◌&&◌, List, [], ◌∷◌, Option, none, some, ◌==◌, Result, ok,
  arith, Option-cases, Bool-cases, inl, inr,
}
use dmn_cpp.Status.{Codes, Answer, throw_if_error}
use dmn_cpp.Store.{
  Shared, Entry, Store, lookup, erase, insert, keep_live, close_stale, remove_stale, find,
  open_impl, get_handle, require, close, get_entry,
}

-- The addresses are the keys of a map.
abbrev pub IsMap : List Entry → Type 0
IsMap [] = Unit {0}
IsMap (e ∷ es) = (lookup e.address es ≡ none) × IsMap es

module _ (alive : ℕ → Bool) where
  abbrev pub AllAlive : List Entry → Type 0
  AllAlive [] = Unit {0}
  AllAlive (e ∷ es) = (alive e.object ≡ true) × AllAlive es

  lookup-keep_live :
      (a : ℕ) (es : List Entry) → lookup a es ≡ none → lookup a (keep_live alive es) ≡ none
  unfolding lookup keep_live
  lookup-keep_live a [] h = refl
  lookup-keep_live a (e ∷ es) h = ground (arith, lookup-keep_live a es)

  keep_live-IsMap : (es : List Entry) → IsMap es → IsMap (keep_live alive es)
  unfolding keep_live
  keep_live-IsMap [] m = tt
  keep_live-IsMap (e ∷ es) m =
      ground (arith, keep_live-IsMap es m.1, lookup-keep_live e.address es m.0)

  keep_live-AllAlive : (es : List Entry) → AllAlive (keep_live alive es)
  unfolding keep_live
  keep_live-AllAlive [] = tt
  keep_live-AllAlive (e ∷ es) = ground (arith, keep_live-AllAlive es)

  keep_live_all : (es : List Entry) → AllAlive es → keep_live alive es ≡ es
  unfolding keep_live
  keep_live_all [] h = refl
  keep_live_all (e ∷ es) h = ground (arith, keep_live_all es h.1)

  close_stale_all :
      (es : List Entry) (closed : List ℕ) → AllAlive es → close_stale alive es closed ≡ closed
  unfolding close_stale
  close_stale_all [] closed h = refl
  close_stale_all (e ∷ es) closed h = ground (arith, close_stale_all es closed h.1)

  lookup-alive :
      (a : ℕ) (es : List Entry) (e : Entry)
      → AllAlive es
      → lookup a es ≡ some e
      → alive e.object ≡ true
  unfolding lookup
  lookup-alive a [] e h p = cc
  lookup-alive a (x ∷ es) e h p = ground (arith, lookup-alive a es e h.1)

  erase-AllAlive : (a : ℕ) (es : List Entry) → AllAlive es → AllAlive (erase a es)
  unfolding erase
  erase-AllAlive a [] h = tt
  erase-AllAlive a (e ∷ es) h = ground (arith, erase-AllAlive a es h.1)

  -- With nothing stale, cleaning changes nothing.
  pub remove_stale_fixed : (st : Store) → AllAlive st.entries → remove_stale alive st ≡ st
  unfolding remove_stale
  remove_stale_fixed st h =
      ground (arith, keep_live_all st.entries h, close_stale_all st.entries st.closed h)

lookup-address : (a : ℕ) (es : List Entry) (e : Entry) → lookup a es ≡ some e → e.address ≡ a
unfolding lookup
lookup-address a [] e p = cc
lookup-address a (x ∷ es) e p = ground (arith, lookup-address a es e)

lookup-erase : (a : ℕ) (es : List Entry) → IsMap es → lookup a (erase a es) ≡ none
unfolding lookup erase
lookup-erase a [] m = refl
lookup-erase a (e ∷ es) m = ground (arith, lookup-erase a es m.1)

-- An entry is found only for the object that it was made for, and only while that lives: an object
-- at a reused address never gets the handle of the one before it.
pub find_sound :
    (alive : ℕ → Bool) (s : Shared) (st : Store) (e : Entry)
    → (find alive s st).0 ≡ some e
    → (e.object ≡ s.object)
      × (e.address ≡ s.address)
      × (alive s.object ≡ true)
      × ((find alive s st).1 ≡ st)
unfolding find
find_sound alive s st e p = elim (Option-cases (lookup s.address st.entries)) [
  | inl missing ↦ ground (arith, missing)
  | inr (x, there) ↦ ground (arith, there, lookup-address s.address st.entries x there)
]

-- The store has a live entry for `s` with the handle `h`, and nothing stale.
pub record Holds (alive : ℕ → Bool) (s : Shared) (h : ℕ) (st : Store) : Type 0 where
  pub entry : Entry
  pub all_alive : AllAlive alive st.entries
  pub there : lookup s.address st.entries ≡ some entry
  pub same : entry.object ≡ s.object
  pub handle : get_entry entry ≡ ok h

module _ (alive : ℕ → Bool) where
  pub cleaned-IsMap : (st : Store) → IsMap st.entries → IsMap (remove_stale alive st).entries
  unfolding remove_stale
  cleaned-IsMap st m = keep_live-IsMap alive st.entries m

  pub cleaned-AllAlive : (st : Store) → AllAlive alive (remove_stale alive st).entries
  unfolding remove_stale
  cleaned-AllAlive st = keep_live-AllAlive alive st.entries

module _ (alive : ℕ → Bool) (s : Shared) where
  pub find_cases :
      (h : ℕ) (st : Store)
      → IsMap st.entries
      → AllAlive alive st.entries
      → ((e : Entry) × (find alive s st ≡ (some e, st))
          × (lookup s.address st.entries ≡ some e)
          × (e.object ≡ s.object))
        ⊎ ((after : Store) × (find alive s st ≡ (none, after))
            × AllAlive alive after.entries
            × (lookup s.address after.entries ≡ none))
  unfolding find
  find_cases h st m all = elim (Option-cases (lookup s.address st.entries)) [
    | inl missing ↦ inr (st, rw (missing, find), all, missing)
    | inr (e, there) ↦ elim (Bool-cases (alive e.object && (e.object == s.object))) [
      | inl good ↦ inl (e, rw (there, find, good), there, ground (arith, good))
      | inr bad ↦ inr (
        record { entries = erase s.address st.entries; closed = close e.handle st.closed },
        rw (there, find, bad),
        erase-AllAlive alive s.address st.entries all,
        lookup-erase s.address st.entries m,
      )
    ]
  ]

module _ (alive : ℕ → Bool) (codes : Codes) (answer : Answer) (s : Shared)
    (live : alive s.object ≡ true) where
  Holds-get_handle :
      (h : ℕ) (st : Store)
      → Holds alive s h st
      → get_handle alive codes answer s st ≡ (ok h, st, false)
  unfolding get_handle find remove_stale
  Holds-get_handle h st held = ground (
    arith,
    keep_live_all alive st.entries held.all_alive,
    close_stale_all alive st.entries st.closed held.all_alive,
    held.there,
    held.same,
    held.handle,
    live,
  )

  open_impl-Holds :
      (h : ℕ) (st : Store)
      → AllAlive alive st.entries
      → lookup s.address st.entries ≡ none
      → (open_impl alive codes answer s st).0 ≡ ok (some h)
      → Holds alive s h (open_impl alive codes answer s st).1
  unfolding open_impl lookup insert remove_stale throw_if_error
  open_impl-Holds h st fresh missing p =
      let kept = keep_live_all alive st.entries fresh in
      record {
        entry = record { address = s.address; object = s.object; handle = answer.handle };
        all_alive = ground (arith, kept, missing, live, fresh);
        there = ground (arith, kept, missing);
        same = refl;
        handle = ground (arith, kept, missing);
      }

  require-some : (r : Result (Option ℕ)) (h : ℕ) → require r ≡ ok h → r ≡ ok (some h)
  unfolding require
  require-some r h p = ground arith

  get_handle-Holds :
      (h : ℕ) (st : Store)
      → IsMap st.entries
      → (get_handle alive codes answer s st).0 ≡ ok h
      → Holds alive s h (get_handle alive codes answer s st).1
  unfolding get_handle require
  get_handle-Holds h st m p =
      elim (find_cases alive s h (remove_stale alive st) (cleaned-IsMap alive st m)
        (cleaned-AllAlive alive st)) [
          | inl (e, found, there, same) ↦ rw found (record {
            entry = e;
            all_alive = cleaned-AllAlive alive st;
            there = there;
            same = same;
            handle = rw found at p;
          })
          | inr (after, lost, fresh, missing) ↦
              rw lost (open_impl-Holds h after fresh missing (require-some _ h (rw lost at p)))
        ]

-- A handle is opened once: after a call that returned one, the next call for the same live object
-- returns the same handle, makes no native call, whatever it would answer, and leaves the store as
-- it is.
pub get_handle_cached :
    (alive : ℕ → Bool) (codes : Codes) (first second : Answer) (s : Shared) (h : ℕ) (st : Store)
    → alive s.object ≡ true
    → IsMap st.entries
    → (get_handle alive codes first s st).0 ≡ ok h
    → let after = (get_handle alive codes first s st).1 in
      get_handle alive codes second s after ≡ (ok h, after, false)
get_handle_cached alive codes first second s h st live m p =
    Holds-get_handle alive codes second s live h _
      (get_handle-Holds alive codes first s live h st m p)
