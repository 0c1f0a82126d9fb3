-- ===== src/Design/Tests.antt =====
-- Flags at concrete inputs.
use dmn_cpp.Base.{◌≡◌, refl, codes}
use dmn_cpp.Design.Flags.{
  lotusscript, add_flag, place, to_char, to_string, language_flags, from_language,
}

lotusscript_run : to_string (from_language lotusscript) ≡ codes "f3L"
unfolding to_string from_language language_flags add_flag place to_char
lotusscript_run = refl
