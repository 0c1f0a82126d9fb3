-- ===== src/Value/Tests.antt =====
-- Values at concrete inputs, with conversions that change nothing.
use dmn_cpp.Base.{◌≡◌, refl, List, [], ◌∷◌, some, Bytes, codes, arith}
use dmn_cpp.Kind.{to_underlying}
use dmn_cpp.Lmbcs.{Translate, to_string}
use dmn_cpp.Cursor.{done, fault, read_u16, read_lengths, bytes_at, make}
use dmn_cpp.Cursor.Held.{AllShort, lengths_bytes}
use dmn_cpp.Cursor.Transfer.{flatten}
use dmn_cpp.Value.{as_string, typed_string, data_pair, read_text_list, text_entries}
use dmn_cpp.Value.TextList.{join, list_memory, as_string-list}

abbrev os : Translate
os = record { lmbcs_to_utf8 = λ s n. s; utf8_to_lmbcs = λ s n. s }

abbrev two_texts : List Bytes
two_texts = codes "ab" ∷ [] ∷ codes "c" ∷ []

as_string-list_example :
    as_string os some some (list_memory two_texts) ≡ done (some (codes "ab;;c"))
unfolding join to_string AllShort list_memory lengths_bytes flatten
as_string-list_example =
    as_string-list os some some two_texts (omega arith)
      (omega arith, (omega arith, (omega arith, tt))) (omega arith)

-- A text list that ends before its last text does is read past its end.
beyond_run : as_string os some some (1 ∷ 5 ∷ 1 ∷ 0 ∷ 9 ∷ 0 ∷ b'a' ∷ []) ≡ fault
unfolding as_string data_pair typed_string to_underlying read_text_list read_u16 read_lengths
    text_entries bytes_at make
beyond_run = refl
