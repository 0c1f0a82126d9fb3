-- ===== src/Design/ViewNote/Tests.antt =====
-- The view of the samples saved on a note, twice.
use dmn_cpp.Base.{[], ◌∷◌, codes}
use dmn_cpp.Note.Samples.{Fields}
use dmn_cpp.Design.View.{View}
use dmn_cpp.Design.ViewNote.{Names}

abbrev names : Names
names = record {
  view_title = codes "$TITLE";
  design_flags = codes "$Flags";
  view_formula_time = codes "$FormulaTime";
  view_view_format = codes "$VIEWFORMAT";
  view_collation = codes "$Collation";
  view_formula = codes "$FORMULA";
}

-- A note with the time of a formula.
abbrev timed : Fields
timed = (codes "$FormulaTime", 0 ∷ 4 ∷ []) ∷ []
