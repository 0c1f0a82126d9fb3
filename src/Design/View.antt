-- ===== src/Design/View.antt =====
-- include/dmn/design/view.hpp and src/design/view.cpp: the design of a view, without its note: the
-- selection formula's memory, the sequence number for item names, the two bits of its flags that
-- the code tests, the background color and the columns. A reference to a column is its place. What
-- compiling a new column's formula gives, and the fonts of a new column, are parameters.
use dmn_cpp.Base.{
  ℕ, suc, Bool, false, List, [], ◌∷◌, ◌++◌, Option, some, none, Bytes, bytes_eq, length,
  if◌then◌else◌, Result, ok, ◌>>=◌,
}
use dmn_cpp.Lmbcs.{Translate, from_string}
use dmn_cpp.Design.Column.{Column}

pub record View : Type 0 where
  pub selection : Bytes
  pub sequence_number : ℕ
  pub conflict : Bool
  pub flatindex : Bool
  pub background_color_ext : ℕ
  pub columns : List Column

unfoldable pub set_selection_formula : Bytes → View → View
set_selection_formula formula view = record view { selection = formula }

unfoldable pub set_background_color : ℕ → View → View
set_background_color color view = record view { background_color_ext = color }

-- `find_if` over the titles, from place `i` on.
unfoldable pub find_column : Bytes → List Column → ℕ → Option ℕ
find_column title [] i = none
find_column title (c ∷ cs) i =
    if bytes_eq c.title title then some i else find_column title cs (suc i)

unfoldable pub make_column : Bytes → ℕ → ℕ → Bytes → Column
make_column formula bold plain title = record {
  flags1 = record { sort = false; sort_categorize = false; sort_descending = false };
  item_name_size = 0;
  title_size = 0;
  formula_size = 0;
  font_id = bold;
  header_font_id = plain;
  formula = formula;
  item_name = [];
  title = title;
}

-- `column` from what the search gave on.
unfoldable pub column_or_new : Result Bytes → ℕ → ℕ → Bytes → View → Option ℕ → Result (ℕ × View)
unfolding make_column
column_or_new compiled bold plain title view (some i) = ok (i, view)
column_or_new compiled bold plain title view none = do
  formula ← compiled
  ok (
    length view.columns,
    record view { columns = view.columns ++ make_column formula bold plain title ∷ [] },
  )

unfoldable pub column : Translate → Result Bytes → ℕ → ℕ → Bytes → View → Result (ℕ × View)
unfolding find_column column_or_new
column os compiled bold plain title view =
    let converted = from_string os title in
    column_or_new compiled bold plain converted view (find_column converted view.columns 0)
