-- ===== src/Design/ViewTests.antt =====
-- The view of the samples, its format and its collation.
use dmn_cpp.Base.{decimal, ◌<◌, ◌≡◌, refl, inl, inr, codes, false, length, [], ◌∷◌, arith}
use dmn_cpp.Cursor.{done}
use dmn_cpp.Cursor.Transfer.{flatten}
use dmn_cpp.Kind.{to_underlying}
use dmn_cpp.Formula.{header_bytes}
use dmn_cpp.Formula.ItemName.{section}
use dmn_cpp.Design.Column.{Column, is_descending, get_sorting}
use dmn_cpp.Design.View.{View}
use dmn_cpp.Design.Format.{make_item_name, build_view_format, name_column, column_bytes}
use dmn_cpp.Design.Format.Filled.{layout}
use dmn_cpp.Design.Format.Tagged.{
  Plain, AllPlain, AllTagged, tagged_total, item_names, numbered, next_name,
}
use dmn_cpp.Design.Format.Built.{build_view_format_lem}
use dmn_cpp.Design.Collation.{sorted_columns, item_names_size, build_collation}
use dmn_cpp.Design.Collation.Located.{descriptors, names, AllLocated, build_collation_lem}
use dmn_cpp.Design.Samples.{
  sdk, works, grows, ods, images, alloc, allocates, first, view, plain, code, collation_ods,
  Images-collation,
}

-- Columns without a name around the one of the samples; they are not sorted.
abbrev unnamed : Column
unnamed = record first {
  flags1 = record { sort = false; sort_categorize = false; sort_descending = false };
  item_name = [];
}

abbrev three : View
three = record view { columns = unnamed ∷ first ∷ unnamed ∷ [] }

plain_column : (col : Column) → col.formula ≡ first.formula → length col.item_name < 100 → Plain col
unfolding header_bytes section
plain_column col same short = record {
  hdr = plain;
  code = code;
  formula = same;
  plain = refl;
  consistent = refl;
  length_fits = omega (arith, short);
  offset_fits = omega (arith, short);
}

plain_three : AllPlain 1 (unnamed ∷ first ∷ unnamed ∷ [])
unfolding name_column make_item_name decimal
plain_three =
    let short : length (name_column 1 unnamed).0.item_name ≡ 2 = refl in
    let last : length (name_column 2 unnamed).0.item_name ≡ 2 = refl in
    (
      plain_column _ refl (omega (arith, short)),
      (plain_column _ refl (omega arith), (plain_column _ refl (omega (arith, last)), tt)),
    )

small_lem : tagged_total ods 1 (unnamed ∷ first ∷ unnamed ∷ []) ≡ 65
unfolding tagged_total section name_column make_item_name column_bytes decimal
small_lem = refl

build_view_format_lem_example :
    (after : View) × (build_view_format sdk ods alloc three
      ≡ done (flatten (layout ods after), after))
    × AllTagged 1 (unnamed ∷ first ∷ unnamed ∷ []) after.columns
    × (item_names after.columns ≡ codes "$1" ∷ codes "N" ∷ codes "$2" ∷ [])
unfolding numbered next_name decimal
build_view_format_lem_example =
    build_view_format_lem sdk ods alloc works grows images allocates three plain_three
      (omega (arith, small_lem))

build_collation_lem_example :
    (build_collation collation_ods alloc three ≡ done (2 ∷ 0 ∷ 6 ∷ 1 ∷ 1 ∷ 0 ∷ 1 ∷ 78 ∷ []))
    × AllLocated (78 ∷ []) 0 (first ∷ [])
unfolding sorted_columns item_names_size descriptors names flatten to_underlying get_sorting
    is_descending
build_collation_lem_example =
    build_collation_lem collation_ods Images-collation alloc allocates three (first ∷ [])
      (inr (refl, inl ([], refl, refl, inr (refl, refl)))) (omega arith) (omega arith)
