-- ===== src/Addin/Escape.antt =====
-- What the logging call makes of an escaped text.
use dmn_cpp.Base.{
  ℕ, ◌≡◌, ap, sym, refl, Bool-cases, inl, inr, true, false, [], ◌∷◌, ◌++◌, Option, none, some,
  append-nil, Bytes, ◌==◌, ==_iff, if◌then◌else◌,
}
use dmn_cpp.Lmbcs.{Translate, from_string}
use dmn_cpp.Addin.{escape, to_escaped_lmbcs, set_log_prefix, log_impl}

abbrev prepend : ℕ → Option Bytes → Option Bytes
prepend c none = none
prepend c (some s) = some (c ∷ s)

-- A format without arguments: two percent signs stand for one, and one for itself is an error.
unfoldable pub format : Bytes → Option Bytes
format [] = some []
format (c ∷ []) = if c == b'%' then none else some (c ∷ [])
format (c ∷ d ∷ cs) =
    let skipped = format cs in
    let kept = format (d ∷ cs) in
    if c == b'%' then (if d == b'%' then prepend c skipped else none) else prepend c kept

format-plain : (c : ℕ) (cs : Bytes) → (c == b'%') ≡ false → format (c ∷ cs) ≡ prepend c (format cs)
unfolding format
format-plain c [] plain = rw plain
format-plain c (d ∷ cs) plain = rw plain

format-percent :
    (c : ℕ) (cs : Bytes) → (c == b'%') ≡ true → format (b'%' ∷ b'%' ∷ cs) ≡ prepend b'%' (format cs)
unfolding format
format-percent c cs percent = refl

-- The logging call gets back every text that was escaped, one after the other.
format-escape :
    (text rest : Bytes) (s : Bytes)
    → format rest ≡ some s
    → format (escape text ++ rest) ≡ some (text ++ s)
unfolding escape
format-escape [] rest s e = e
format-escape (chr ∷ text) rest s e = elim (Bool-cases (chr == b'%')) [
  | inl percent ↦
      let same : b'%' ≡ chr = sym ((==_iff chr b'%').0 percent) in
      rw (percent, format-percent chr (escape text ++ rest) percent, format-escape text rest s e)
        (ap (λ c. some (c ∷ (text ++ s))) same)
  | inr plain ↦
      rw (plain, format-plain chr (escape text ++ rest) plain, format-escape text rest s e)
]

-- A text and a prefix that stay as they are in LMBCS, such as ASCII, come out of the logging call as
-- they went in, percent signs included: the prefix and then the text.
pub format-log_impl :
    (os : Translate) (prefix text : Bytes)
    → from_string os (escape prefix) ≡ escape prefix
    → from_string os (escape text) ≡ escape text
    → format (log_impl os (set_log_prefix os prefix) text) ≡ some (prefix ++ text)
unfolding log_impl set_log_prefix to_escaped_lmbcs format
format-log_impl os prefix text p t = rw (p, t) (format-escape prefix (escape text) text whole)
  where
    whole : format (escape text) ≡ some text
    whole = rw (append-nil (escape text), append-nil text) at (format-escape text [] [] refl)
