-- ===== src/Unid.antt =====
-- src/unid.cpp: universal ids as 32 hexadecimal digits. The SDK's MAXUNIDSTRING is a parameter.
-- `std::from_chars` in base 16 reads the longest run of digits at the start of its range; a chunk of
-- eight digits fits a uint32_t. Each part of an id is a number below 2 ^ 32.
pub mod Hex
mod Tests
use dmn_cpp.Base.{
  ℕ, zero, suc, ◌+◌, ◌-◌, ◌*◌, ◌/◌, ◌%◌, Bool, true, false, not, ◌&&◌, [], ◌∷◌, ◌++◌, Option, none,
  some, Bytes, ltb, leb, ◌==◌, length, take, drop, if◌then◌else◌,
}

pub record Unid : Type 0 where
  pub file_0 : ℕ
  pub file_1 : ℕ
  pub note_0 : ℕ
  pub note_1 : ℕ

unfoldable pub hex_value : ℕ → Option ℕ
hex_value c =
    if leb 48 c && leb c 57
    then some (c - 48)
    else if leb 65 c && leb c 70
    then some (c - 55)
    else if leb 97 c && leb c 102
    then some (c - 87)
    else none

-- The digits from a place on, after the number read so far.
unfoldable pub scan_hex : ℕ → Bytes → ℕ
scan_hex n [] = n
scan_hex n (c ∷ cs) = elim (hex_value c) [ none ↦ n | some d ↦ scan_hex (n * 16 + d) cs ]

unfoldable pub from_chars : Bytes → Option ℕ
from_chars [] = none
from_chars (c ∷ cs) = elim (hex_value c) [ none ↦ none | some d ↦ some (scan_hex d cs) ]

unfoldable pub hex_digit : ℕ → ℕ
hex_digit d = if ltb d 10 then 48 + d else 55 + d

-- The last `k` hexadecimal digits of a number: `{:08X}` for eight.
unfoldable pub hex : ℕ → ℕ → Bytes
hex zero n = []
hex (suc k) n = hex k (n / 16) ++ hex_digit (n % 16) ∷ []

unfoldable pub to_string : Unid → Bytes
to_string u = hex 8 u.file_1 ++ (hex 8 u.file_0 ++ (hex 8 u.note_1 ++ hex 8 u.note_0))

unfoldable pub chunk : ℕ → Bytes → Bytes
chunk i str = take 8 (drop (i * 8) str)

-- The parts in the order in which they stand; the first that is no number ends the loop.
unfoldable pub parts : Option ℕ → Option ℕ → Option ℕ → Option ℕ → Option Unid
parts (some a) (some b) (some c) (some d) =
    some (record { file_0 = b; file_1 = a; note_0 = d; note_1 = c })
parts _ _ _ _ = none

unfoldable pub from_string : ℕ → Bytes → Option Unid
from_string max_unid_string str =
    if not (length str == max_unid_string)
    then none
    else parts (from_chars (chunk 0 str)) (from_chars (chunk 1 str)) (from_chars (chunk 2 str))
        (from_chars (chunk 3 str))
