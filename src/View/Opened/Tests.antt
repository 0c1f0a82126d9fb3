-- ===== src/View/Opened/Tests.antt =====
-- A view that is opened by its name, and the entries of the view of three.
use dmn_cpp.Base.{ℕ, ◌+◌, ◌≤◌, ◌≡◌, refl, true, List, [], ◌∷◌, none, some, ok, arith}
use dmn_cpp.Status.Samples.{codes}
use dmn_cpp.Cursor.{done}
use dmn_cpp.View.{iterate, QueryOptions}
use dmn_cpp.View.Samples.{layout, get_note, read_entries, find_by_name}
use dmn_cpp.View
use dmn_cpp.View.Rows.{rows_bytes, row_bytes}
use dmn_cpp.Cursor.Held.{lengths_bytes}
use dmn_cpp.Cursor.Transfer.{flatten}
use dmn_cpp.View.Opened.{Native, Entry, open_view, get_entries}
use dmn_cpp.View.Opened.Listed.{AreEntries, get_entries-bound}

abbrev native : ℕ → Native
native status = record {
  find_view = λ d name. record { status = status; handle = 6 };
  open_collection = λ d id. record { status = 0; handle = id + d };
}

opened :
    open_view codes ok (native 0) 1 (ok 3) (65 ∷ [])
    ≡ ok (some (record { hdl = 9; cleanup = true; owner = 1 }))
unfolding open_view
opened = refl

missing : open_view codes ok (native 0x404) 1 (ok 3) (65 ∷ []) ≡ ok none
unfolding open_view
missing = refl

abbrev all_entries : QueryOptions
all_entries = record { key = none; count = 9; offset = 0 }

abbrev listed : List Entry
listed = record { noteid = 1; columns = (1 ∷ []) ∷ [] } ∷ []

get_entries-bound_example :
    ((iterate layout get_note read_entries codes 0 find_by_name ok all_entries).1 ≡ done tt)
    × AreEntries ok
        ((iterate layout get_note read_entries codes 0 find_by_name ok all_entries).0)
        listed
    × (1 ≤ 9)
unfolding get_entries iterate View.read_row View.visit rows_bytes row_bytes lengths_bytes flatten
get_entries-bound_example =
    get_entries-bound ok layout get_note read_entries codes 0 find_by_name ok all_entries listed
      (λ p skip n. ground arith) refl
