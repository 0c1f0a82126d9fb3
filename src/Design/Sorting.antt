-- ===== src/Design/Sorting.antt =====
-- How the sorting of a column is read back, and what its setting leaves alone.
use dmn_cpp.Base.{◌≡◌, refl, Bool, true, false}
use dmn_cpp.Design.Column.{Column, Sorting, none, ascending, descending, set_sorting, get_sorting}

-- What `get_sorting` gives after `set_sorting`: a categorized column is always sorted.
unfoldable pub effective : Sorting → Bool → Sorting
effective none true = ascending
effective none false = none
effective ascending b = ascending
effective descending b = descending

-- The sorting that was set is read back, whatever was set before it, but for one case: no sorting
-- with categories is read back as ascending. Setting what was read changes nothing.
pub get_sorting-set_sorting :
    (sorting : Sorting) (categorized : Bool) (col : Column)
    → (get_sorting (set_sorting sorting categorized col)
        ≡ (effective sorting categorized, categorized))
      × (set_sorting (effective sorting categorized) categorized col
          ≡ set_sorting sorting categorized col)
unfolding get_sorting set_sorting effective
get_sorting-set_sorting none true col = (refl, refl)
get_sorting-set_sorting none false col = (refl, refl)
get_sorting-set_sorting ascending true col = (refl, refl)
get_sorting-set_sorting ascending false col = (refl, refl)
get_sorting-set_sorting descending true col = (refl, refl)
get_sorting-set_sorting descending false col = (refl, refl)
