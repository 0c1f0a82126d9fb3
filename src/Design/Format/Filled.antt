-- ===== src/Design/Format/Filled.antt =====
-- What the buffer of a view format holds once it is written.
use dmn_cpp.Base.{
  ℕ, ◌%◌, ◌^◌, ◌<◌, ◌≡◌, ◌∙◌, ap, sym, refl, Bool, true, false, not, List, [], ◌∷◌, ◌++◌, Bytes,
  length, map, take-all, if◌then◌else◌, arith,
}
use dmn_cpp.Status.{throw_if_error}
use dmn_cpp.Cursor.{Outcome, done, ◌>>=◌, Cursor, make, write, write_all, u16_bytes}
use dmn_cpp.Cursor.Transfer.{flatten, write_all-exact}
use dmn_cpp.Cursor.Chains.{>>=-cong, >>=-assoc, write_all-cons, write_all-append_then}
use dmn_cpp.Kind.{view_format, to_underlying}
use dmn_cpp.Formula.{Native, accept, add_summary, merge, get_cursor}
use dmn_cpp.Formula.ItemName.{answer_of, get_cursor_lem}
use dmn_cpp.Design.Column.{Column}
use dmn_cpp.Design.View.{View}
use dmn_cpp.Design.Format.{Ods, write_columns, summarize_if, write_view_format}

-- The SDK's answers where nothing fails: the size of a formula is that of its memory, and each call
-- on the selection formula succeeds.
pub record Works (native : Native) : Type 0 where
  pub sized : (memory : Bytes) → native.get_size memory ≡ answer_of (length memory)
  pub summarizes : (item_name memory : Bytes) → (native.summary_item item_name memory).0 ≡ 0
  pub merges : (other memory : Bytes) → (native.merge_call other memory).0 ≡ 0

-- The texts and formulas of the columns, in the order in which they are written.
unfoldable pub texts : List Column → List Bytes
texts [] = []
texts (col ∷ cols) = col.item_name ∷ col.title ∷ col.formula ∷ texts cols

module _ (native : Native) where
  -- The selection formula with each column's item and formula.
  unfoldable pub select : List Column → Bytes → Bytes
  select [] selection = selection
  select (col ∷ cols) selection =
      select cols
        ((native.merge_call col.formula ((native.summary_item col.item_name selection).1)).1)

  unfoldable pub summary_if : Bool → Bytes → Bytes → Bytes
  summary_if b item_name selection =
      if b then (native.summary_item item_name selection).1 else selection

  unfoldable pub selection_of : Ods → View → Bytes
  unfolding select summary_if
  selection_of ods view =
      summary_if (not view.flatindex) ods.field_link
        (summary_if view.conflict ods.conflict_item (select view.columns view.selection))

unfoldable pub layout : Ods → View → List Bytes
unfolding texts to_underlying
layout ods view =
    u16_bytes (to_underlying view_format)
    ∷ ods.table_format (length view.columns % 2 ^ 16) view.sequence_number view.conflict
        view.flatindex
    ∷ (map ods.column_format view.columns
        ++ (texts view.columns
            ++ ods.table_format2 view.background_color_ext ∷ map ods.column_format2 view.columns))

accept_lem : (answer : ℕ × Bytes) → answer.0 ≡ 0 → accept answer ≡ done (answer.1)
unfolding accept throw_if_error
accept_lem (status, memory) success = ground arith

module _ (native : Native) (works : Works native) where
  whole_cursor : (memory : Bytes) → get_cursor native memory ≡ done (make memory)
  whole_cursor memory = rw (
    get_cursor_lem native memory (length memory) (works.sized memory) (omega arith),
    take-all (length memory) memory refl,
  )

  add_summary_lem :
      (item_name memory : Bytes)
      → add_summary native item_name memory ≡ done ((native.summary_item item_name memory).1)
  unfolding add_summary
  add_summary_lem item_name memory =
      accept_lem (native.summary_item item_name memory) (works.summarizes item_name memory)

  merge_lem :
      (other memory : Bytes) → merge native other memory ≡ done ((native.merge_call other memory).1)
  unfolding merge
  merge_lem other memory = accept_lem (native.merge_call other memory) (works.merges other memory)

  summarize_if_lem :
      (b : Bool) (item_name memory : Bytes)
      → summarize_if native b item_name memory ≡ done (summary_if native b item_name memory)
  unfolding summarize_if summary_if
  summarize_if_lem true item_name memory = add_summary_lem item_name memory
  summarize_if_lem false item_name memory = refl

  write_columns_lem :
      (cols : List Column) (c : Cursor) (selection : Bytes)
      → write_columns native cols c selection
        ≡ (write_all (texts cols) c >>= λ after. done (after, select native cols selection))
  unfolding write_columns texts select write_all
  write_columns_lem [] c selection = refl
  write_columns_lem (col ∷ cols) c selection =
      let rest = texts cols in
      let finish : Cursor → Outcome (Cursor × Bytes) =
        λ after. done (after, select native (col ∷ cols) selection) in
      let turn : Cursor → Outcome (Cursor × Bytes) = λ written.
        add_summary native col.item_name selection >>= λ summarized.
        merge native col.formula summarized >>= λ merged.
        write_columns native cols written merged in
      let turn_lem : (d : Cursor) → (write_all rest d >>= finish) ≡ turn d = λ d. rw (
        add_summary_lem col.item_name selection,
        merge_lem col.formula ((native.summary_item col.item_name selection).1),
        write_columns_lem cols d
            ((native.merge_call col.formula ((native.summary_item col.item_name selection).1)).1),
      ) in
      rw (whole_cursor col.formula) (
        sym (
          write_all-cons col.item_name (col.title ∷ col.formula ∷ rest) c finish
          ∙ >>=-cong (write col.item_name c) (λ named.
            write_all-cons col.title (col.formula ∷ rest) named finish
            ∙ >>=-cong (write col.title named) (λ titled.
              write_all-cons col.formula rest titled finish
              ∙ >>=-cong (write col.formula titled) turn_lem))))

module _ (native : Native) (works : Works native) (ods : Ods) (view : View) where
  finish : Cursor → Outcome (Bytes × View)
  finish after = done (after.buffer, record view { selection = selection_of native ods view })

  after_columns : Cursor × Bytes → Outcome (Bytes × View)
  after_columns columns =
      summarize_if native view.conflict ods.conflict_item (columns.1) >>= λ with_conflict.
      summarize_if native (not view.flatindex) ods.field_link with_conflict >>= λ with_link.
      write (ods.table_format2 view.background_color_ext) (columns.0) >>= λ table2.
      write_all (map ods.column_format2 view.columns) table2 >>= λ formats2.
      done (formats2.buffer, record view { selection = with_link })

  -- The last writes, behind the calls on the selection.
  last_lem :
      (after : Cursor)
      → after_columns (after, select native view.columns view.selection) ≡ (
          write_all
            (ods.table_format2 view.background_color_ext ∷ map ods.column_format2 view.columns)
            after
          >>= finish)
  unfolding finish selection_of after_columns
  last_lem after =
      let summarized = select native view.columns view.selection in
      rw
        (
          summarize_if_lem native works view.conflict ods.conflict_item summarized,
          summarize_if_lem native works (not view.flatindex) ods.field_link
              (summary_if native view.conflict ods.conflict_item summarized),
        )
        (sym (
          write_all-cons (ods.table_format2 view.background_color_ext)
            (map ods.column_format2 view.columns) after
            (λ formats2.
              done (formats2.buffer, record view { selection = selection_of native ods view }))))

  write_view_format_chain :
      (buffer : Cursor)
      → write_view_format native ods buffer view ≡ (write_all (layout ods view) buffer >>= finish)
  unfolding write_view_format layout after_columns
  write_view_format_chain buffer =
      let end = ods.table_format2 view.background_color_ext ∷ map ods.column_format2 view.columns in
      let table =
        ods.table_format (length view.columns % 2 ^ 16) view.sequence_number view.conflict
          view.flatindex in
      let formats = map ods.column_format view.columns in
      let after_formats : (d : Cursor)
          → (write_all (texts view.columns ++ end) d >>= finish)
            ≡ (write_columns native view.columns d view.selection >>= after_columns) =
        λ d.
          write_all-append_then (texts view.columns) end d finish
          ∙ (>>=-cong (write_all (texts view.columns) d) (λ after. sym (last_lem after))
              ∙ (sym (
                    >>=-assoc (write_all (texts view.columns) d)
                      (λ after. done (after, select native view.columns view.selection))
                      after_columns)
                  ∙ ap (λ call. call >>= after_columns)
                      (sym (write_columns_lem native works view.columns d view.selection)))) in
      sym (
        write_all-cons (u16_bytes (to_underlying view_format))
          (table ∷ (formats ++ (texts view.columns ++ end))) buffer finish
        ∙ >>=-cong (write (u16_bytes (to_underlying view_format)) buffer) (λ typed.
          write_all-cons table (formats ++ (texts view.columns ++ end)) typed finish
          ∙ >>=-cong (write table typed) (λ tabled.
            write_all-append_then formats (texts view.columns ++ end) tabled finish
            ∙ >>=-cong (write_all formats tabled) after_formats)))

  -- A buffer of exactly the layout's length ends up as the layout.
  pub write_view_format_lem :
      (fresh : Bytes)
      → length fresh ≡ length (flatten (layout ods view))
      → length fresh < 2 ^ 32
      → write_view_format native ods (make fresh) view
        ≡ done (flatten (layout ods view), record view { selection = selection_of native ods view })
  unfolding make finish
  write_view_format_lem fresh same small =
      write_view_format_chain (record { buffer = fresh; offset = 0 })
      ∙ rw (write_all-exact (layout ods view) fresh same small)
