-- ===== src/View/Opened.antt =====
-- src/view.cpp: `open`, and `get_entries` over a walk. The native calls and a note's id, which a call of the SDK
-- gives, are parameters. The handle of a view is closed by NIFCloseCollection.
pub mod Listed
mod Tests
use dmn_cpp.Base.{
  ℕ, true, List, [], ◌∷◌, Option, none, some, Bytes, if◌then◌else◌, Result, ok, err, ◌>>=◌, ◌>>◌,
}
use dmn_cpp.Status.{Codes, Answer, is_not_found, throw_if_error}
use dmn_cpp.Handle.{Handle, make}
use dmn_cpp.Cursor.{Outcome, done, threw, fault}
use dmn_cpp.Cursor
use dmn_cpp.View.{lift}

-- NIFFindView of a name, and NIFOpenCollection of a note id.
pub record Native : Type 0 where
  pub find_view : ℕ → Bytes → Answer
  pub open_collection : ℕ → ℕ → Answer

module _ (codes : Codes) (from_utf8 : Bytes → Result Bytes) (native : Native) where
  unfoldable pub open_collection : ℕ → ℕ → ℕ → Result (Option Handle)
  unfolding throw_if_error make
  open_collection thread d view_noteid = do
    throw_if_error (native.open_collection d view_noteid).status
    ok (some (make (native.open_collection d view_noteid).handle true thread))

  unfoldable pub open_found : ℕ → ℕ → Answer → Result (Option Handle)
  unfolding open_collection is_not_found throw_if_error
  open_found thread d found =
      if is_not_found codes found.status
      then ok none
      else (throw_if_error found.status >> open_collection thread d found.handle)

  unfoldable pub open_view : ℕ → Result ℕ → Bytes → Result (Option Handle)
  unfolding open_found
  open_view thread db view_name = do
    d ← db
    converted ← from_utf8 view_name
    open_found thread d (native.find_view d converted)

pub record Entry : Type 0 where
  pub noteid : ℕ
  pub columns : List Bytes

module _ {Note : Type 0} (note_id : Note → Result ℕ) where
  -- The callbacks in order; the vector is lost where the walk or a callback throws.
  unfoldable pub push_entries : List (Note × List Bytes) → Outcome (Unit {0}) → Outcome (List Entry)
  push_entries [] end = Cursor.◌>>=◌ end (λ u. done [])
  push_entries ((note, columns) ∷ calls) end = Cursor.◌>>=◌ (lift (note_id note)) λ id.
      Cursor.◌>>=◌ (push_entries calls end)
        λ entries. done (record { noteid = id; columns = columns } ∷ entries)

  -- `get_entries` over what `iterate` calls back.
  unfoldable pub get_entries : List (Note × List Bytes) × Outcome (Unit {0}) → Outcome (List Entry)
  unfolding push_entries
  get_entries walk = push_entries (walk.0) (walk.1)
