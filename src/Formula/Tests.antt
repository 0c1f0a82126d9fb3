-- ===== src/Formula/Tests.antt =====
-- Item names in concrete formulas, where the SDK takes the size from the memory's length.
use dmn_cpp.Base.{◌≡◌, ◌-◌, refl, [], ◌∷◌, ◌++◌, Bytes, length, take, replicate, arith}
use dmn_cpp.Cursor.{done}
use dmn_cpp.Formula.{Native, Header, header_bytes, add_item_name}
use dmn_cpp.Formula.ItemName.{section, tag, add_item_name_lem}

abbrev sdk : Native
sdk = record {
  get_size = λ memory. record { status = 0; handle = length memory };
  realloc = λ n memory. (0, take n memory ++ replicate (n - length memory) 0);
  summary_item = λ item_name memory. (0, memory);
  merge_call = λ other memory. (0, memory);
}

abbrev plain : Header
plain = record { length = 9; flags = 0; offset = 6 }

abbrev tagged : Header
tagged = record { length = 9; flags = 2; offset = 6 }

abbrev three : Bytes
three = 71 ∷ 72 ∷ 73 ∷ []

name_run :
    add_item_name sdk (65 ∷ []) (header_bytes plain ++ three)
    ≡ done (13 ∷ 0 ∷ 2 ∷ 0 ∷ 10 ∷ 0 ∷ 1 ∷ 0 ∷ 65 ∷ 0 ∷ 71 ∷ 72 ∷ 73 ∷ [])
unfolding add_item_name header_bytes
name_run = refl

add_item_name_lem_example :
    add_item_name sdk (65 ∷ []) (header_bytes plain ++ three) ≡ done (tag plain (65 ∷ []) ++ three)
unfolding header_bytes section
add_item_name_lem_example =
    add_item_name_lem sdk plain (65 ∷ []) three (0 ∷ 0 ∷ 0 ∷ 0 ∷ []) 13 refl refl (omega arith)
      (omega arith) refl refl refl refl (omega arith) (omega arith)
