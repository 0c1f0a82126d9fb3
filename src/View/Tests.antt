-- ===== src/View/Tests.antt =====
-- Walks over a view of three entries, two to a page; the note of the second is gone.
use dmn_cpp.Base.{◌≡◌, refl, List, [], ◌∷◌, arith}
use dmn_cpp.Cursor.{done, make}
use dmn_cpp.Cursor.Transfer.{flatten}
use dmn_cpp.Cursor.Held.{lengths_bytes, AllShort}
use dmn_cpp.View
use dmn_cpp.View.{
  Layout, Page, Match, QueryOptions, read_rows, read_pages, iterate, iterate_from, iterate_entries,
}
use dmn_cpp.View.Samples.{layout, get_note, row}
use dmn_cpp.View.Rows.{Row, rows_bytes, row_bytes, nonempty, visits, AreRows, IsRow, read_rows-page}

abbrev two_rows : List Row
two_rows = row 1 ∷ row 2 ∷ []

read_rows-page_example :
    read_rows layout get_note 2 (make (rows_bytes two_rows)) ≡ ((1, (1 ∷ []) ∷ []) ∷ [], done tt)
unfolding visits View.visit nonempty AreRows IsRow AllShort rows_bytes row_bytes lengths_bytes
    flatten
read_rows-page_example =
    read_rows-page layout get_note two_rows
      (
        (refl, refl, refl, refl, (omega arith, (omega arith, tt))),
        ((refl, refl, refl, refl, (omega arith, (omega arith, tt))), tt),
      )
      (omega arith)
