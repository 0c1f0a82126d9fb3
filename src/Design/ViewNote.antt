-- ===== src/Design/ViewNote.antt =====
-- src/design/view.cpp: a new view design, and `save`, which puts its parts on its note. The names of the
-- items are parameters; `hdl` is what the note's `get_handle` gives, and the update at the end is
-- known by its status. The class of a new note is not modelled.
pub mod Saved
mod Tests
use dmn_cpp.Base.{ℕ, Bool, true, false, List, [], ◌∷◌, Bytes, codes, if◌then◌else◌, Result}
use dmn_cpp.Status.{Codes, throw_if_error}
use dmn_cpp.Kind.{Kind, view_format, collation}
use dmn_cpp.Lmbcs.{Translate}
use dmn_cpp.Cursor.{Outcome, done, threw, ◌>>=◌, ◌>>◌, lift}
use dmn_cpp.Value.{apply_string, apply_formula}
use dmn_cpp.Formula
use dmn_cpp.Note.Items.{Native, has, erase}
use dmn_cpp.Design.View.{View}
use dmn_cpp.Design.Format.{Ods, Alloc, build_view_format}
use dmn_cpp.Design.Collation
use dmn_cpp.Design.Collation.{build_collation}
use dmn_cpp.Design.Settings.{Setting, set_all, check_absent, apply_value}

-- The SDK's names of the items.
pub record Names : Type 0 where
  pub view_title : Bytes
  pub design_flags : Bytes
  pub view_formula_time : Bytes
  pub view_view_format : Bytes
  pub view_collation : Bytes
  pub view_formula : Bytes

-- The constructor, for the compiled formula @All.
unfoldable pub make_view : Bytes → View
make_view selection = record {
  selection = selection;
  sequence_number = 1;
  conflict = true;
  flatindex = false;
  background_color_ext = 0;
  columns = [];
}

module _ (names : Names) (os : Translate) {Items : Type 0} (native : Native Items)
    (hdl : Result ℕ) where
  unfoldable pub create_settings : Bytes → List Setting
  create_settings title =
      record { key = names.view_title; value = apply_string os title; flags = [] }
      ∷ record { key = names.design_flags; value = apply_string os (codes "PY"); flags = [] }
      ∷ record { key = codes "$Generator"; value = apply_string os (codes "dmn-cpp"); flags = [] }
      ∷ []

  -- `create`: the new note's items and the view; `status` is that of the search for a view of the same
  -- title, and `compiled` what compiling @All gives.
  unfoldable pub create :
      Codes → Result ℕ → ℕ → Result Bytes → Bytes → Items → Outcome (Items × View)
  unfolding check_absent create_settings make_view
  create c db status compiled title items = do
    check_absent c db status
    h ← lift hdl
    after ← set_all os native hdl (create_settings title) items
    selection ← lift compiled
    done (after, make_view selection)

  unfoldable pub save_settings : View → Bytes → Bytes → List Setting
  unfolding apply_value
  save_settings view format coll =
      record { key = names.view_view_format; value = apply_value view_format format; flags = [] }
      ∷ record { key = names.view_collation; value = apply_value collation coll; flags = [] }
      ∷ record { key = names.view_formula; value = apply_formula view.selection; flags = [] }
      ∷ []

  unfoldable pub erase_if : Bool → Items → Outcome Items
  erase_if true items = erase os native hdl names.view_formula_time items
  erase_if false items = done items

  module _ (formulas : Formula.Native) (ods : Ods) (collations : Collation.Ods)
      (alloc : Alloc) where
    -- `save`, where NSFNoteUpdate answers `status`.
    unfoldable pub save : ℕ → View → Items → Outcome (Items × View)
    unfolding build_view_format build_collation erase_if save_settings throw_if_error
    save status view items = do
      built ← build_view_format formulas ods alloc view
      coll ← build_collation collations alloc (built.1)
      timed ← has os native hdl names.view_formula_time items
      erased ← erase_if timed items
      after ← set_all os native hdl (save_settings (built.1) (built.0) coll) erased
      h ← lift hdl
      lift (throw_if_error status) >> done (after, built.1)
