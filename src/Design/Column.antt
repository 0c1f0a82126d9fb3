-- ===== src/Design/Column.antt =====
-- include/dmn/design/column.hpp and src/design/column.cpp: a column of a view. Of the column's format
-- the model keeps the parts that the library sets: the three sorting bits of flags1_, which are
-- different bits, the sizes, each a uint16_t, and the fonts. The formula is its memory.
use dmn_cpp.Base.{ℕ, Bool, true, false, not, ◌||◌, Bytes, if◌then◌else◌}
use dmn_cpp.Lmbcs.{Translate, from_string}

pub data Sorting : Type 0 where
  none ascending descending : Sorting

pub record SortFlags : Type 0 where
  pub sort : Bool
  pub sort_categorize : Bool
  pub sort_descending : Bool

pub record Column : Type 0 where
  pub flags1 : SortFlags
  pub item_name_size : ℕ
  pub title_size : ℕ
  pub formula_size : ℕ
  pub font_id : ℕ
  pub header_font_id : ℕ
  pub formula : Bytes
  pub item_name : Bytes
  pub title : Bytes

unfoldable pub set_formula : Bytes → Column → Column
set_formula formula col = record col { formula = formula }

unfoldable pub set_header_font : ℕ → Column → Column
set_header_font id col = record col { header_font_id = id }

unfoldable pub set_item_font : ℕ → Column → Column
set_item_font id col = record col { font_id = id }

module _ (os : Translate) where
  unfoldable pub set_item_name : Bytes → Column → Column
  set_item_name item_name col = record col { item_name = from_string os item_name }

  unfoldable pub set_title : Bytes → Column → Column
  set_title title col = record col { title = from_string os title }

unfoldable pub is_none : Sorting → Bool
is_none none = true
is_none ascending = false
is_none descending = false

unfoldable pub is_descending : Sorting → Bool
is_descending none = false
is_descending ascending = false
is_descending descending = true

-- The mask clears the three bits, and each test sets one of them.
unfoldable pub set_sorting : Sorting → Bool → Column → Column
unfolding is_none is_descending
set_sorting sorting categorized col = record col {
  flags1 = record {
    sort = not (is_none sorting) || categorized;
    sort_categorize = categorized;
    sort_descending = is_descending sorting;
  };
}

unfoldable pub get_sorting : Column → Sorting × Bool
get_sorting col =
    if not col.flags1.sort
    then (none, col.flags1.sort_categorize)
    else (if col.flags1.sort_descending then descending else ascending, col.flags1.sort_categorize)
