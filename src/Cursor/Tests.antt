-- ===== src/Cursor/Tests.antt =====
-- The cursor at concrete inputs.
use dmn_cpp.Base.{◌≡◌, refl, [], ◌∷◌, out_of_range, arith}
use dmn_cpp.Cursor.{Cursor, done, threw, write_all, read_u16}
use dmn_cpp.Cursor.Transfer.{flatten, write_all-exact}

abbrev five : Cursor
five = record { buffer = 1 ∷ 2 ∷ 3 ∷ 4 ∷ 5 ∷ []; offset = 3 }

word_run : read_u16 (record five { offset = 1 }) ≡ done (0x0302, five)
unfolding read_u16
word_run = refl

past_run : read_u16 (record five { offset = 4 }) ≡ threw out_of_range
unfolding read_u16
past_run = refl

write_all-exact_example :
    write_all ((7 ∷ []) ∷ (8 ∷ 9 ∷ []) ∷ []) (record { buffer = 0 ∷ 0 ∷ 0 ∷ []; offset = 0 })
    ≡ done (record { buffer = 7 ∷ 8 ∷ 9 ∷ []; offset = 3 })
unfolding flatten
write_all-exact_example =
    write_all-exact ((7 ∷ []) ∷ (8 ∷ 9 ∷ []) ∷ []) (0 ∷ 0 ∷ 0 ∷ []) refl (omega arith)
