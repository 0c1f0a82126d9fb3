-- ===== src/Design/Format.antt =====
-- src/design/view.cpp: `build_view_format`, which writes the format of a view and its columns into one
-- new buffer. The images that ods::write makes of the structures, their sizes, two item names of the
-- SDK and the allocation are parameters. Sums of sizes of what is in memory stay below 2 ^ 64.
pub mod Tagged
pub mod Built
pub mod Filled
use dmn_cpp.Base.{
  ℕ, suc, ◌+◌, ◌%◌, ◌^◌, ◌*◌, Bool, true, false, not, List, [], ◌∷◌, ◌++◌, Option, Bytes, length,
  map, ◌==◌, is_empty, if◌then◌else◌, decimal, runtime_error, guard,
}
use dmn_cpp.Status.{Answer}
use dmn_cpp.Cursor.{
  Outcome, done, threw, fault, ◌>>=◌, ◌>>◌, lift, Cursor, write, write_all, u16_bytes,
}
use dmn_cpp.Kind.{Kind, view_format, to_underlying}
use dmn_cpp.Lmbcs.{Translate, from_string}
use dmn_cpp.Locker.{Locker, take_it, allocate_impl}
use dmn_cpp.Formula.{Native, size, add_item_name, add_summary, merge, get_cursor}
use dmn_cpp.Design.Column.{Column}
use dmn_cpp.Design.View.{View}

-- The table's format is made from the number of columns, the sequence number and the two flags, the
-- second one from the background color.
pub record Ods : Type 0 where
  pub table_format : ℕ → ℕ → Bool → Bool → Bytes
  pub table_format2 : ℕ → Bytes
  pub column_format : Column → Bytes
  pub column_format2 : Column → Bytes
  pub table_format_size : ℕ
  pub table_format2_size : ℕ
  pub column_format_size : ℕ
  pub column_format2_size : ℕ
  pub conflict_item : Bytes
  pub field_link : Bytes

-- What `OSMemAlloc` and the lock answer for a size.
abbrev pub Alloc : Type 0
Alloc = ℕ → Answer × Option Bytes

-- `detail::locker::allocate` of a size, as the cursor that the locker is.
unfoldable pub new_buffer : Alloc → ℕ → Outcome Cursor
new_buffer alloc n = do
  locker ← (allocate_impl n take_it ((alloc n).0) ((alloc n).1)).0
  done locker.cursor

-- What the first loop gives: the columns, the next sequence number and the bytes they take.
pub record Prepared : Type 0 where
  pub columns : List Column
  pub sequence_number : ℕ
  pub bytes : ℕ

unfoldable pub make_item_name : ℕ → Bytes
make_item_name sequence = b'$' ∷ decimal sequence

-- A column with its item name, and the sequence number after it.
unfoldable pub name_column : ℕ → Column → Column × ℕ
unfolding make_item_name
name_column sequence col =
    if is_empty col.item_name
    then (record col { item_name = make_item_name sequence }, (sequence + 1) % 2 ^ 16)
    else (col, sequence)

module _ (native : Native) where
  -- The third loop: the texts and the formula of each column, and the column's part in the selection.
  unfoldable pub write_columns : List Column → Cursor → Bytes → Outcome (Cursor × Bytes)
  unfolding get_cursor write add_summary merge
  write_columns [] c selection = done (c, selection)
  write_columns (col ∷ cols) c selection = do
    code ← get_cursor native col.formula
    named ← write col.item_name c
    titled ← write col.title named
    written ← write code.buffer titled
    summarized ← add_summary native col.item_name selection
    merged ← merge native col.formula summarized
    write_columns cols written merged

  unfoldable pub summarize_if : Bool → Bytes → Bytes → Outcome Bytes
  unfolding add_summary
  summarize_if b item_name selection =
      if b then add_summary native item_name selection else done selection

module _ (ods : Ods) where
  unfoldable pub column_bytes : ℕ → Column → ℕ
  column_bytes formula_size col =
      formula_size
      + length col.item_name
      + length col.title
      + ods.column_format_size
      + ods.column_format2_size

module _ (native : Native) (ods : Ods) where
  -- One turn of the first loop, on a column that has its item name.
  unfoldable pub tag_column : Column → Outcome (Column × ℕ)
  unfolding add_item_name size column_bytes
  tag_column col = do
    formula ← add_item_name native col.item_name col.formula
    formula_size ← size native false formula
    done (
      record col {
        formula = formula;
        formula_size = formula_size % 2 ^ 16;
        item_name_size = length col.item_name % 2 ^ 16;
        title_size = length col.title % 2 ^ 16;
      },
      column_bytes ods formula_size col,
    )

  -- `build_view_format` from the second loop on.
  unfoldable pub write_view_format : Cursor → View → Outcome (Bytes × View)
  unfolding write write_all write_columns summarize_if to_underlying
  write_view_format buffer view = do
    typed ← write (u16_bytes (to_underlying view_format)) buffer
    table ←
        write
          (ods.table_format (length view.columns % 2 ^ 16) view.sequence_number view.conflict
            view.flatindex)
          typed
    formats ← write_all (map ods.column_format view.columns) table
    columns ← write_columns native view.columns formats view.selection
    with_conflict ← summarize_if native view.conflict ods.conflict_item (columns.1)
    with_link ← summarize_if native (not view.flatindex) ods.field_link with_conflict
    table2 ← write (ods.table_format2 view.background_color_ext) (columns.0)
    formats2 ← write_all (map ods.column_format2 view.columns) table2
    done (formats2.buffer, record view { selection = with_link })

module _ (native : Native) (ods : Ods) where
  unfoldable pub prepare_columns : ℕ → List Column → Outcome Prepared
  unfolding size name_column tag_column
  prepare_columns sequence [] =
      done (record { columns = []; sequence_number = sequence; bytes = 0 })
  prepare_columns sequence (col ∷ cols) = do
    n ← size native false col.formula
    lift (guard (not (n == 0)) runtime_error)
    let named = name_column sequence col
    tagged ← tag_column native ods (named.0)
    rest ← prepare_columns (named.1) cols
    done (record rest { columns = tagged.0 ∷ rest.columns; bytes = tagged.1 + rest.bytes })

  unfoldable pub build_view_format : Alloc → View → Outcome (Bytes × View)
  unfolding prepare_columns new_buffer write_view_format
  build_view_format alloc view = do
    prepared ← prepare_columns view.sequence_number view.columns
    let buffer_size = ods.table_format_size + ods.table_format2_size + prepared.bytes
    buffer ← new_buffer alloc (buffer_size + 2)
    write_view_format native ods buffer
        (record view { columns = prepared.columns; sequence_number = prepared.sequence_number })
