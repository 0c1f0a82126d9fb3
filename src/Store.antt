-- ===== src/Store.antt =====
-- include/dmn/detail/thread_context.hpp: the handles that one thread has open, by the address of
-- the shared state that they belong to; and the calls of src/database.cpp and src/note.cpp that
-- find a handle there or open one. An object is known by an identity, and an address may be used
-- again once its object is gone: `alive` says which objects are. The store is thread_local, so
-- the thread check of a handle always passes here; a handle whose entry goes is appended to
-- `closed`, unless it is null. The map's order is of no account.
pub mod Caching
pub mod Accounting
mod Tests
use dmn_cpp.Base.{
  ℕ, Bool, true, false, not, ◌&&◌, List, [], ◌∷◌, ◌++◌, Option, none, some, ◌==◌, if◌then◌else◌,
  Result, ok, err, invalid_handle, ◌>>=◌, ◌>>◌, guard,
}
use dmn_cpp.Status.{Codes, Answer, is_not_found, throw_if_error}

-- A `std::shared_ptr<state>`: the address it holds and the object that lives there.
pub record Shared : Type 0 where
  pub address : ℕ
  pub object : ℕ

pub record Entry : Type 0 where
  pub address : ℕ
  pub object : ℕ
  pub handle : ℕ

pub record Store : Type 0 where
  pub entries : List Entry
  pub closed : List ℕ

unfoldable pub close : ℕ → List ℕ → List ℕ
close h closed = if h == 0 then closed else closed ++ h ∷ []

unfoldable pub lookup : ℕ → List Entry → Option Entry
lookup a [] = none
lookup a (e ∷ es) = if e.address == a then some e else lookup a es

unfoldable pub erase : ℕ → List Entry → List Entry
erase a [] = []
erase a (e ∷ es) = if e.address == a then es else e ∷ erase a es

unfoldable pub get_entry : Entry → Result ℕ
get_entry e = do guard (not (e.handle == 0)) invalid_handle; ok e.handle

-- `try_emplace`: an entry that is there stays, and the handle that came with the call is closed.
unfoldable pub insert : Shared → ℕ → Store → Entry × Store
unfolding lookup close
insert s handle st = elim (lookup s.address st.entries) [
  | some e ↦ (e, record st { closed = close handle st.closed })
  | none ↦
      let e : Entry = record { address = s.address; object = s.object; handle = handle } in
      (e, record st { entries = e ∷ st.entries })
]

-- An open that found nothing: "The database has disappeared".
unfoldable pub require : Result (Option ℕ) → Result ℕ
require (err e) = err e
require (ok none) = err invalid_handle
require (ok (some h)) = ok h

module _ (alive : ℕ → Bool) where
  unfoldable pub keep_live : List Entry → List Entry
  keep_live [] = []
  keep_live (e ∷ es) = let rest = keep_live es in if alive e.object then e ∷ rest else rest

  unfoldable pub close_stale : List Entry → List ℕ → List ℕ
  unfolding close
  close_stale [] closed = closed
  close_stale (e ∷ es) closed =
      close_stale es (if alive e.object then closed else close e.handle closed)

  unfoldable pub remove_stale : Store → Store
  unfolding keep_live close_stale
  remove_stale st = record {
    entries = keep_live st.entries;
    closed = close_stale st.entries st.closed;
  }

  unfoldable pub find : Shared → Store → Option Entry × Store
  unfolding lookup erase close
  find s st = elim (lookup s.address st.entries) [
    | none ↦ (none, st)
    | some e ↦ if alive e.object && (e.object == s.object) then (some e, st) else (
      none,
      record { entries = erase s.address st.entries; closed = close e.handle st.closed },
    )
  ]

  module _ (codes : Codes) where
    -- `open_impl`, of a database and of a note alike, where the native call answers `answer`. A
    -- handle of a call that failed is not looked at.
    unfoldable pub open_impl : Answer → Shared → Store → Result (Option ℕ) × Store
    open_impl answer s st =
        let cleaned = remove_stale st in
        if is_not_found codes answer.status
        then (ok none, cleaned)
        else elim (throw_if_error answer.status) [
          | err e ↦ (err e, cleaned)
          | ok u ↦
              let (e, after) = insert s answer.handle cleaned in
              ((get_entry e >>= λ h. ok (some h)), after)
        ]

    -- `database::get_handle` from what `find` gave on.
    unfoldable pub use_or_open : Answer → Shared → Option Entry × Store → Result ℕ × Store × Bool
    use_or_open answer s (some e, after) = (get_entry e, after, false)
    use_or_open answer s (none, after) =
        let (result, opened) = open_impl answer s after in (require result, opened, true)

    -- `database::get_handle`: the handle, the store after it, and whether the native call was made.
    unfoldable pub get_handle : Answer → Shared → Store → Result ℕ × Store × Bool
    unfolding use_or_open
    get_handle answer s st = use_or_open answer s (find s (remove_stale st))
