-- ===== src/View/Samples.antt =====
-- A view of three entries, one to a page; the note of the second is gone.
use dmn_cpp.Base.{
  some, ℕ, ◌+◌, ◌*◌, true, false, [], ◌∷◌, Option, none, some, Bytes, ◌==◌, ltb, if◌then◌else◌,
  Result, ok,
}
use Prim.Native.Nat.{min}
use dmn_cpp.View.{Layout, Page, Match}
use dmn_cpp.View.Rows.{Row, rows_bytes}

abbrev pub word : Bytes → ℕ
word (a ∷ b ∷ rest) = a + b * 256
word _ = 0

abbrev pub second_word : Bytes → ℕ
second_word (a ∷ b ∷ rest) = word rest
second_word _ = 0

abbrev pub layout : Layout
layout = record {
  note_id_size = 4;
  note_id = word;
  table_size = 4;
  table_length = word;
  table_items = second_word;
}

abbrev pub get_note : ℕ → Result (Option ℕ)
get_note n = if n == 2 then ok none else ok (some n)

-- An entry with an empty item and one of a byte.
abbrev pub row : ℕ → Row
row n = record { id = n ∷ 0 ∷ 0 ∷ 0 ∷ []; table = 9 ∷ 0 ∷ 2 ∷ 0 ∷ []; items = [] ∷ (n ∷ []) ∷ [] }

-- Entries from a position on, two at most, the third the last one.
abbrev pub read_entries : ℕ → ℕ → ℕ → Page ℕ
read_entries position skip n =
    let first = position + skip in
    if ltb first 3
    then record {
      status = 0;
      memory = some (rows_bytes (row first ∷ []));
      count = min n 1;
      more = true;
      position = first + 1;
    }
    else record { status = 0; memory = some []; count = 0; more = false; position = first }

abbrev pub find_by_name : Bytes → Match ℕ
find_by_name key = record { status = 0; position = 0; matches = 2 }
