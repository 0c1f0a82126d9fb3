-- ===== src/Lmbcs.antt =====
-- src/lmbcs.cpp: the conversions between UTF-8 and LMBCS. OSTranslate is a parameter, from the input
-- and the size of the output's buffer, which is twice the input's; an empty string is never passed
-- to it. What it returns is the output's new size.
use dmn_cpp.Base.{ℕ, ◌*◌, Bytes, is_empty, length, [], if◌then◌else◌}

-- OSTranslate in both directions.
pub record Translate : Type 0 where
  pub lmbcs_to_utf8 : Bytes → ℕ → Bytes
  pub utf8_to_lmbcs : Bytes → ℕ → Bytes

module _ (os : Translate) where
  unfoldable pub to_string : Bytes → Bytes
  to_string str = if is_empty str then [] else os.lmbcs_to_utf8 str (length str * 2)

  unfoldable pub from_string : Bytes → Bytes
  from_string str = if is_empty str then [] else os.utf8_to_lmbcs str (length str * 2)
