-- ===== src/Message.antt =====
-- src/error.cpp: the message of a native error. OSLoadString and the mask of the SDK's ERR are
-- arguments; a code's text has at most 511 bytes, and none where there is no text.
mod Repeated
mod Tests
use dmn_cpp.Base.{
  ℕ, zero, suc, ◌+◌, ◌-◌, ◌/◌, ◌%◌, List, [], ◌∷◌, ◌++◌, Option, none, some, Bytes, codes, ltb,
  length, ◌==◌, if◌then◌else◌,
}
use dmn_cpp.Lmbcs.{Translate, to_string}

abbrev pub max_message_size : ℕ
max_message_size = 512

unfoldable pub digit : ℕ → ℕ
digit d = if ltb d 10 then 48 + d else 87 + d

-- `{:x}`; the fuel bounds the number of digits.
unfoldable pub hex_fuel : ℕ → ℕ → Bytes
unfolding digit
hex_fuel zero n = []
hex_fuel (suc f) n =
    let rest = hex_fuel f (n / 16) in if ltb n 16 then digit n ∷ [] else rest ++ digit (n % 16) ∷ []

unfoldable pub hex_code : ℕ → Bytes
unfolding hex_fuel
hex_code n = codes "0x" ++ hex_fuel (suc n) n

module _ (err_code : ℕ → ℕ) (load : ℕ → ℕ → Bytes) where
  unfoldable pub os_load_string : ℕ → Option Bytes
  os_load_string code =
      let text = load (err_code code) (max_message_size - 1) in
      if length text == 0 then none else some text

  -- The text of a code behind a message.
  unfoldable pub with_text : Translate → Bytes → Bytes → Option Bytes → Bytes
  with_text os message hex none = message ++ (codes ": " ++ hex)
  with_text os message hex (some text) =
      message ++ (codes ": " ++ (to_string os text ++ (codes " (" ++ (hex ++ codes ")"))))

  unfoldable pub get_error_message : Translate → Bytes → ℕ → Bytes
  unfolding with_text os_load_string hex_code
  get_error_message os message code =
      with_text os message (hex_code (err_code code)) (os_load_string code)

  -- What `what()` gives of a `native_error`.
  unfoldable pub what : Translate → Bytes → ℕ → Bytes
  unfolding get_error_message
  what os message code = message ++ (codes ": " ++ get_error_message os message code)
