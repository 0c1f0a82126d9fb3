-- ===== src/Message/Repeated.antt =====
-- What a message says: its text, how often, and its code.
use dmn_cpp.Base.{ℕ, [], ◌∷◌, ◌++◌, Option, none, some, Bytes, codes, length, ◌==◌, if◌then◌else◌}
use dmn_cpp.Lmbcs.{Translate, to_string}

-- What a message says of a code, whose hexadecimal digits are given: the SDK's text of it, where there is
-- one, and the code in parentheses; else the code.
unfoldable pub told : Translate → Bytes → Bytes → Bytes
told os [] digits = codes "0x" ++ digits
told os (c ∷ text) digits = to_string os (c ∷ text) ++ (codes " (0x" ++ (digits ++ codes ")"))

module _ (err_code : ℕ → ℕ) (load : ℕ → ℕ → Bytes) (os : Translate) where
  some_text : Bytes → Option Bytes
  some_text text = if length text == 0 then none else some text
