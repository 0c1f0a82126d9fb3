-- ===== src/Query.antt =====
-- src/database.cpp, `run_query`: the notes that a query found, up to a limit. The table of note ids that
-- NSFQueryDBExt2 fills, in the order in which IDScan goes through it, is a list; `get_note` and
-- `NSFQueryDBExt2` are parameters, and so is the conversion of the query to LMBCS.
-- The database's handle is taken to be there.
pub mod Limit
mod Tests
use Prim.Native.Nat.{min}
use dmn_cpp.Base.{
  ℕ, List, [], ◌∷◌, ◌++◌, Option, none, some, Bytes, ltb, if◌then◌else◌, length, Result, ok, err,
  ◌>>=◌, ◌>>◌,
}
use dmn_cpp.Status.{throw_if_error}
use dmn_cpp.Dql.{Expression, render}

abbrev pub max_dql_entries : ℕ
max_dql_entries = 0xffff

-- The status of a query and its table.
pub record Table : Type 0 where
  pub status : ℕ
  pub note_ids : List ℕ

module _ {Note : Type 0} (get_note : ℕ → Result (Option Note)) where
  -- `output.emplace_back` for a note that is there.
  unfoldable pub emplace : Option Note → List Note → List Note
  emplace none output = output
  emplace (some note) output = output ++ note ∷ []

  -- The loop, from an id on.
  unfoldable pub collect : ℕ → List ℕ → List Note → Result (List Note)
  unfolding emplace
  collect max_entries [] output = ok output
  collect max_entries (id ∷ ids) output =
      if ltb (length output) max_entries
      then (get_note id >>= λ note. collect max_entries ids (emplace note output))
      else ok output

  unfoldable pub run_query :
      {Double : Type 0}
      → (Double → Bytes)
      → (Bytes → Bytes)
      → (Bytes → Table)
      → Expression Double
      → ℕ
      → Result (List Note)
  run_query to_string from_string query_db query limit = do
    input ← render to_string query
    let table : Table = query_db (from_string input)
    throw_if_error table.status
    collect (min max_dql_entries limit) table.note_ids []
