-- ===== src/Design/Format/Built.antt =====
-- `build_view_format` as a whole: the buffer has exactly the room that the writes need.
use dmn_cpp.Base.{
  ℕ, ◌+◌, ◌%◌, ◌^◌, ◌<◌, ◌≡◌, ◌≢◌, ◌∙◌, ap, sym, refl, Bool, List, [], ◌∷◌, ◌++◌, some, Bytes,
  length, map, length-append, append_assoc, runtime_error, arith,
}
use dmn_cpp.Cursor.{done, threw, make}
use dmn_cpp.Cursor.Transfer.{flatten}
use dmn_cpp.Locker.{take_it, is_free}
use dmn_cpp.Locker.Balance.{allocate_impl_locks}
use dmn_cpp.Formula.{Native}
use dmn_cpp.Design.Column.{Column}
use dmn_cpp.Design.View.{View}
use dmn_cpp.Design.Format.{Ods, Alloc, new_buffer, column_bytes, build_view_format}
use dmn_cpp.Design.Format.Filled.{Works, texts, layout, selection_of, write_view_format_lem}
use dmn_cpp.Design.Format.Tagged.{
  numbered, item_names, AllTagged-numbered, Grows, AllPlain, AllTagged, total, tagged_total,
  AllTagged-total, prepare_columns_lem, prepare_columns_twice,
}

-- Each image is as long as ods::size says.
pub record Images (ods : Ods) : Type 0 where
  pub table :
      (n sequence : ℕ) (conflict flatindex : Bool)
      → length (ods.table_format n sequence conflict flatindex) ≡ ods.table_format_size
  pub table2 : (color : ℕ) → length (ods.table_format2 color) ≡ ods.table_format2_size
  pub column : (col : Column) → length (ods.column_format col) ≡ ods.column_format_size
  pub column2 : (col : Column) → length (ods.column_format2 col) ≡ ods.column_format2_size

-- The SDK allocates and locks as many bytes as are asked for.
abbrev pub Allocates : Alloc → Type 0
Allocates alloc =
    (n : ℕ)
    → ((alloc n).0.status ≡ 0)
      × ((alloc n).0.handle ≢ 0)
      × ((memory : Bytes) × ((alloc n).1 ≡ some memory) × (length memory ≡ n))

pub flatten-append : (xs ys : List Bytes) → flatten (xs ++ ys) ≡ flatten xs ++ flatten ys
unfolding flatten
flatten-append [] ys = refl
flatten-append (x ∷ xs) ys =
    ap (λ (b : Bytes). x ++ b) (flatten-append xs ys)
    ∙ sym (append_assoc x (flatten xs) (flatten ys))

pub length-flatten_append :
    (xs ys : List Bytes) → length (flatten (xs ++ ys)) ≡ length (flatten xs) + length (flatten ys)
length-flatten_append xs ys =
    ap length (flatten-append xs ys) ∙ length-append (flatten xs) (flatten ys)

module _ (ods : Ods) (images : Images ods) where
  length-columns :
      (cols : List Column)
      → length (flatten (map ods.column_format cols))
          + length (flatten (texts cols))
          + length (flatten (map ods.column_format2 cols))
        ≡ total ods cols
  unfolding flatten texts total column_bytes
  length-columns [] = refl
  length-columns (col ∷ cols) = omega (
    arith,
    length-columns cols,
    images.column col,
    images.column2 col,
    length-append (ods.column_format col) (flatten (map ods.column_format cols)),
    length-append (ods.column_format2 col) (flatten (map ods.column_format2 cols)),
    length-append col.item_name (col.title ++ (col.formula ++ flatten (texts cols))),
    length-append col.title (col.formula ++ flatten (texts cols)),
    length-append col.formula (flatten (texts cols)),
  )

  length-layout :
      (view : View)
      → length (flatten (layout ods view))
        ≡ ods.table_format_size + ods.table_format2_size + total ods view.columns + 2
  unfolding flatten layout
  length-layout view = omega (
    arith,
    images.table (length view.columns % 2 ^ 16) view.sequence_number view.conflict view.flatindex,
    images.table2 view.background_color_ext,
    length-columns view.columns,
    length-append
        (ods.table_format (length view.columns % 2 ^ 16) view.sequence_number view.conflict
          view.flatindex)
        (flatten (
          map ods.column_format view.columns
          ++ (texts view.columns
              ++ ods.table_format2 view.background_color_ext
                ∷ map ods.column_format2 view.columns))),
    length-flatten_append (map ods.column_format view.columns) (
        texts view.columns
        ++ ods.table_format2 view.background_color_ext ∷ map ods.column_format2 view.columns),
    length-flatten_append (texts view.columns)
        (ods.table_format2 view.background_color_ext ∷ map ods.column_format2 view.columns),
    length-append (ods.table_format2 view.background_color_ext)
        (flatten (map ods.column_format2 view.columns)),
  )

layout_selection :
    (ods : Ods) (view : View) (selection : Bytes)
    → layout ods view ≡ layout ods (record view { selection = selection })
unfolding layout
layout_selection ods view selection = refl

module _ (alloc : Alloc) (allocates : Allocates alloc) where
  pub new_buffer_lem :
      (n : ℕ)
      → 0 < n
      → (memory : Bytes) × (new_buffer alloc n ≡ done (make memory)) × (length memory ≡ n)
  unfolding new_buffer is_free
  new_buffer_lem n positive =
      let (success, valid, (memory, locked, same)) = allocates n in
      (
        memory,
        rw (
          locked,
          allocate_impl_locks n memory (alloc n).0 (ground arith) same success valid take_it refl,
        ),
        same,
      )

module _ (native : Native) (ods : Ods) (alloc : Alloc) (works : Works native) (grows : Grows native)
    (images : Images ods) (allocates : Allocates alloc) where
  -- Where the SDK behaves as `Works`, `Grows` and `Allocates` say, the images of the structures are
  -- as long as their sizes, no column's formula has an item name, and the names and the whole buffer
  -- fit, `build_view_format` throws nothing: a column with an item name keeps it, and the others get
  -- `$` and the next number, in order and without a gap; it puts each name in front of its column's
  -- code, and fills a buffer that has exactly the room, with the parts in the order of the layout,
  -- each text as long as it is and not one byte over.
  pub build_view_format_lem :
      (view : View)
      → AllPlain view.sequence_number view.columns
      → ods.table_format_size
          + ods.table_format2_size
          + tagged_total ods view.sequence_number view.columns
          + 2
        < 2 ^ 32
      → (after : View) × (build_view_format native ods alloc view
          ≡ done (flatten (layout ods after), after))
        × AllTagged view.sequence_number view.columns after.columns
        × (item_names after.columns ≡ numbered view.sequence_number view.columns)
  unfolding build_view_format
  build_view_format_lem view plain small =
      let (prepared, ended, all_tagged, sum) =
        prepare_columns_lem native ods works grows view.sequence_number view.columns plain in
      let n = ods.table_format_size + ods.table_format2_size + prepared.bytes + 2 in
      let (memory, made, same) = new_buffer_lem alloc allocates n (omega arith) in
      let named : View = record view {
        columns = prepared.columns;
        sequence_number = prepared.sequence_number;
      } in
      let fits =
        AllTagged-total native ods works view.sequence_number view.columns prepared.columns
          all_tagged in
      let exact : length memory ≡ length (flatten (layout ods named)) =
        omega (arith, same, sum, length-layout ods images named) in
      (
        record named { selection = selection_of native ods named },
        rw
            (
              ended,
              made,
              write_view_format_lem native works ods named memory exact
                  (omega (arith, same, sum, fits, small)),
            )
            (ap
              (λ pieces.
                done (flatten pieces, record named { selection = selection_of native ods named }))
              (layout_selection ods named (selection_of native ods named))),
        all_tagged,
        AllTagged-numbered view.sequence_number view.columns prepared.columns all_tagged,
      )

  -- A view with columns whose format was built once, as its `save` does, cannot be built again: the
  -- formulas have item names by then, and the second call throws a runtime_error.
  pub build_view_format_twice :
      (view after : View)
      → view.columns ≢ []
      → AllTagged view.sequence_number view.columns after.columns
      → build_view_format native ods alloc after ≡ threw runtime_error
  unfolding build_view_format
  build_view_format_twice view after nonempty all_tagged = rw (
      prepare_columns_twice native ods works view.sequence_number after.sequence_number view.columns
        after.columns nonempty all_tagged)
