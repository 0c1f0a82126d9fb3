-- ===== src/Design/Settings.antt =====
-- The items that src/design/view.cpp and src/design/agent.cpp set on the notes of their elements: runs of
-- `note.set`, and the search for an element of the same title.
pub mod Held
pub mod Distinct
use dmn_cpp.Base.{
  Bool, true, false, List, [], ◌∷◌, Bytes, drop, if◌then◌else◌, Result, runtime_error,
}
use dmn_cpp.Base.{ℕ}
use dmn_cpp.Status.{Codes, throw_if_error, is_not_found}
use dmn_cpp.Kind.{Kind}
use dmn_cpp.Lmbcs.{Translate}
use dmn_cpp.Cursor.{Outcome, done, threw, ◌>>=◌, ◌>>◌, lift}
use dmn_cpp.Note.Items.{Native, ItemFlag, set}

-- The arguments of a `note.set`: the key, what `apply` passes on of the value, and the flags.
pub record Setting : Type 0 where
  pub key : Bytes
  pub value : Kind × Bytes
  pub flags : List ItemFlag

unfoldable pub set_all :
    Translate → {Items : Type 0} → Native Items → Result ℕ → List Setting → Items → Outcome Items
set_all os native hdl [] items = done items
set_all os native hdl (s ∷ ss) items = do
  next ← set os native hdl s.key s.value s.flags items
  set_all os native hdl ss next

-- The status of NIFFindDesignNote for the title of a new element.
unfoldable pub check_absent : Codes → Result ℕ → ℕ → Outcome (Unit {0})
unfolding is_not_found throw_if_error
check_absent c db status = do
  d ← lift db
  if is_not_found c status then done tt else (lift (throw_if_error status) >> threw runtime_error)

-- `note_value<T>::apply` of a value, whose memory starts with the type.
unfoldable pub apply_value : Kind → Bytes → Kind × Bytes
apply_value kind memory = (kind, drop 2 memory)
