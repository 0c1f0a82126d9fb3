-- ===== src/Note/Handles.antt =====
-- src/note.cpp: the state that copies of a note share, and the calls that make a note, save it and
-- find its handle. A note that was created owns its handle until it is saved; any other has the
-- handle that the thread's store keeps. The store's identity of the state is an argument, as are
-- the handle of the database and what the native calls answer.
use dmn_cpp.Base.{
  ℕ, Bool, true, false, Option, none, some, if◌then◌else◌, Result, ok, err, ◌>>=◌, ◌>>◌,
}
use dmn_cpp.Handle.{Handle, destroy}
use dmn_cpp.Handle
use dmn_cpp.Status.{Codes, Answer, throw_if_error, is_not_found}
use dmn_cpp.Store.{Shared, Entry, Store, insert, find, get_entry, remove_stale, open_impl}

pub record State : Type 0 where
  pub db : Result ℕ
  pub note_id : ℕ
  pub hdl : Option Handle

-- `create`, where `NSFNoteCreate` answers `answer`.
unfoldable pub create : ℕ → Result ℕ → Answer → Result State
unfolding throw_if_error
create thread db answer = do
  d ← db
  throw_if_error answer.status
  ok (record { db = db; note_id = 0; hdl = some (Handle.make answer.handle true thread) })

-- The handle goes with `hdl = nullopt`; none is std::terminate.
unfoldable pub drop_handle : ℕ → Option Handle → Store → Option Store
unfolding destroy
drop_handle thread none store = some store
drop_handle thread (some h) store = elim (destroy thread h store.closed) [
  | none ↦ none
  | some closed ↦ some (record store { closed = closed })
]

-- What an operation leaves: what it threw, if anything, the state and the store.
abbrev pub Step : Type 0
Step = Option (Result (Unit {0}) × State × Store)

unfoldable pub saved : ℕ → State → Option Store → Step
saved note_id st none = none
saved note_id st (some store) = some (ok tt, record st { note_id = note_id; hdl = none }, store)

-- The new note id is asked for with another `get_handle`.
unfoldable pub finish_save : ℕ → ℕ → State → Result ℕ × Store × Bool → Step
unfolding drop_handle saved
finish_save thread note_id st (err e, store, called) = some (err e, st, store)
finish_save thread note_id st (ok h, store, called) =
    saved note_id st (drop_handle thread st.hdl store)

-- The native call, and the new entry of the store; the first argument of the call is the handle of
-- the database.
unfoldable pub open_new : Shared → Answer → Result ℕ → Store → Result ℕ × Store × Bool
unfolding get_entry throw_if_error insert
open_new shared answer (err e) store = (err e, store, false)
open_new shared answer (ok d) store = elim (throw_if_error answer.status) [
  | err e ↦ (err e, store, true)
  | ok u ↦ let (e, after) = insert shared answer.handle store in (get_entry e, after, true)
]

module _ (alive : ℕ → Bool) (thread : ℕ) (shared : Shared) where
  -- `get_handle` from what `find` gave on, with whether the native call was made.
  unfoldable pub open_missing : Answer → State → Option Entry × Store → Result ℕ × Store × Bool
  unfolding get_entry
  open_missing answer st (some e, store) = (get_entry e, store, false)
  open_missing answer st (none, store) = open_new shared answer st.db store

  unfoldable pub get_handle : Answer → State → Store → Result ℕ × Store × Bool
  get_handle answer st store = elim (st.hdl) [
    | some h ↦ (Handle.get thread h, store, false)
    | none ↦ open_missing answer st (find alive shared (remove_stale alive store))
  ]

  -- `save` from the update on.
  unfoldable pub update_note : Answer → ℕ → ℕ → State → Result ℕ × Store × Bool → Step
  unfolding throw_if_error get_handle finish_save
  update_note answer status note_id st (handle, store, called) =
      elim (handle >>= λ h. throw_if_error status) [
        | err e ↦ some (err e, st, store)
        | ok u ↦ finish_save thread note_id st (get_handle answer st store)
      ]

  -- `save`: `status` is what `NSFNoteUpdate` answers and `note_id` the id that the note has then.
  unfoldable pub save : Answer → ℕ → ℕ → State → Store → Step
  unfolding get_handle update_note
  save answer status note_id st store =
      update_note answer status note_id st (get_handle answer st store)

-- `open` of a note id: the state, where the note is found.
unfoldable pub opened_note : Result ℕ → ℕ → Result (Option ℕ) → Result (Option State)
opened_note db note_id (err e) = err e
opened_note db note_id (ok none) = ok none
opened_note db note_id (ok (some h)) = ok (some (record { db = db; note_id = note_id; hdl = none }))

unfoldable pub open_note :
    (ℕ → Bool) → Codes → Shared → Result ℕ → ℕ → Answer → Store → Result (Option State) × Store
unfolding opened_note
open_note alive codes shared (err e) note_id answer store = (err e, remove_stale alive store)
open_note alive codes shared (ok d) note_id answer store =
    let (found, after) = open_impl alive codes answer shared store in
    (opened_note (ok d) note_id found, after)

-- `open` of a universal id, where `NSFNoteOpenByUNID` answers `found`, whose handle nothing keeps, and
-- `NSFNoteGetInfo` gives the note id.
unfoldable pub open_found :
    (ℕ → Bool)
    → Codes
    → Shared
    → Result ℕ
    → Result (Unit {0})
    → ℕ
    → Answer
    → Store
    → Result (Option State) × Store
unfolding open_note
open_found alive codes shared db (err e) note_id answer store = (err e, store)
open_found alive codes shared db (ok u) note_id answer store =
    open_note alive codes shared db note_id answer store

unfoldable pub open_unid :
    (ℕ → Bool)
    → Codes
    → Shared
    → Result ℕ
    → Answer
    → ℕ
    → Answer
    → Store
    → Result (Option State) × Store
unfolding is_not_found throw_if_error open_found
open_unid alive codes shared (err e) found note_id answer store = (err e, store)
open_unid alive codes shared (ok d) found note_id answer store =
    if is_not_found codes found.status
    then (ok none, store)
    else open_found alive codes shared (ok d) (throw_if_error found.status) note_id answer store
