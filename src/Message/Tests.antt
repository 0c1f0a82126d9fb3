-- ===== src/Message/Tests.antt =====
-- Messages of a code without a text, and of one with it.
use dmn_cpp.Base.{ℕ, ◌%◌, ◌^◌, ◌≡◌, refl, [], Bytes, codes, if◌then◌else◌, ◌==◌}
use dmn_cpp.Lmbcs.{Translate, to_string}
use dmn_cpp.Message.{hex_fuel, hex_code, os_load_string, with_text, get_error_message, what}

abbrev os : Translate
os = record { lmbcs_to_utf8 = λ s n. s; utf8_to_lmbcs = λ s n. s }

abbrev err_code : ℕ → ℕ
err_code code = code % 2 ^ 14

abbrev load : ℕ → ℕ → Bytes
load code size = if code == 0x103 then codes "No such file" else []

what_unknown : what err_code load os (codes "Failed") 0x4404 ≡ codes "Failed: Failed: 0x404"
unfolding what get_error_message with_text hex_code hex_fuel os_load_string
what_unknown = refl

what_known :
    what err_code load os (codes "Failed") 0x103 ≡ codes "Failed: Failed: No such file (0x103)"
unfolding what get_error_message with_text hex_code hex_fuel os_load_string to_string
what_known = refl
