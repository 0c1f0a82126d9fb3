-- ===== src/Unid/Tests.antt =====
-- An id at concrete inputs.
use dmn_cpp.Base.{◌≡◌, refl, some, codes}
use dmn_cpp.Unid.{Unid, hex_value, scan_hex, from_chars, chunk, parts, from_string}

abbrev id : Unid
id = record { file_0 = 0x85258a1b; file_1 = 1; note_0 = 0xffffffff; note_1 = 0x0000abcd }

-- A chunk that starts with a digit is a number, whatever follows.
from_string_lax :
    from_string 32 (codes "1zzzzzzz2-------300000004.......")
    ≡ some (record { file_0 = 2; file_1 = 1; note_0 = 4; note_1 = 0x30000000 })
unfolding from_string chunk parts from_chars scan_hex hex_value
from_string_lax = refl
