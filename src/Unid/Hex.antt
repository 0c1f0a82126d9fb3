-- ===== src/Unid/Hex.antt =====
-- An id that is printed is read back: src/unid.cpp.
use dmn_cpp.Base.{
  ℕ, zero, suc, ◌+◌, ◌*◌, ◌/◌, ◌%◌, ◌^◌, ◌<◌, ◌≡◌, refl, ap, sym, ◌∙◌, [], ◌∷◌, ◌++◌, Option, some,
  Bytes, length, length-append, append-nil, append_assoc, arith,
}
use native.Mathlib.Nat.{pow-suc, mul_assoc}
use dmn_cpp.Unid.{
  Unid, hex_value, scan_hex, from_chars, hex_digit, hex, to_string, chunk, parts, from_string,
}

hex_value-digit : (d : ℕ) → d < 16 → hex_value (hex_digit d) ≡ some d
unfolding hex_value hex_digit
hex_value-digit d small = ground arith

scan-step :
    (n c : ℕ) (cs : Bytes) (d : ℕ)
    → hex_value c ≡ some d
    → scan_hex n (c ∷ cs) ≡ scan_hex (n * 16 + d) cs
unfolding scan_hex
scan-step n c cs d e = rw (scan_hex, e) refl

-- Reading goes on behind a run of digits.
scan-hex :
    (k m n : ℕ) (rest : Bytes)
    → n < 16 ^ k
    → scan_hex m (hex k n ++ rest) ≡ scan_hex (m * 16 ^ k + n) rest
unfolding scan_hex hex
scan-hex zero m n rest small = ap (λ v. scan_hex v rest) (omega (arith, small))
scan-hex (suc k) m n rest small =
    let step = pow-suc 16 k in
    let low : n / 16 < 16 ^ k = omega (arith, small, step) in
    let value : (m * 16 ^ k + n / 16) * 16 + n % 16 ≡ m * 16 ^ suc k + n =
      rw (step, ← mul_assoc m (16 ^ k) 16) (omega arith) in
    rw
      (
        append_assoc (hex k (n / 16)) (hex_digit (n % 16) ∷ []) rest,
        scan-hex k m (n / 16) (hex_digit (n % 16) ∷ rest) low,
        scan-step (m * 16 ^ k + n / 16) (hex_digit (n % 16)) rest (n % 16)
            (hex_value-digit (n % 16) (omega arith)),
      )
      (ap (λ v. scan_hex v rest) value)

length-hex : (k n : ℕ) → length (hex k n) ≡ k
unfolding hex
length-hex zero n = refl
length-hex (suc k) n =
    omega (arith, length-append (hex k (n / 16)) (hex_digit (n % 16) ∷ []), length-hex k (n / 16))

from_chars-scan :
    (c : ℕ) (cs : Bytes) (d : ℕ)
    → hex_value c ≡ some d
    → from_chars (c ∷ cs) ≡ some (scan_hex 0 (c ∷ cs))
unfolding from_chars
from_chars-scan c cs d e =
    let z : 0 * 16 + d ≡ d = omega arith in
    rw (from_chars, scan-step 0 c cs d e, e) (ap (λ n. some (scan_hex n cs)) (sym z))

scanned : (n : ℕ) → n < 2 ^ 32 → scan_hex 0 (hex 8 n ++ []) ≡ n
unfolding scan_hex
scanned n small = scan-hex 8 0 n [] (omega (arith, small)) ∙ omega arith

from_chars-hex : (n : ℕ) → n < 2 ^ 32 → from_chars (hex 8 n) ≡ some n
unfolding hex
from_chars-hex n small =
    from_chars-scan _ _ (n / 16 / 16 / 16 / 16 / 16 / 16 / 16 % 16)
      (hex_value-digit _ (omega arith))
    ∙ ap some (ap (scan_hex 0) (sym (append-nil (hex 8 n))) ∙ scanned n small)

parts_lem :
    {w x y z : Option ℕ} {f₁ f₀ n₁ n₀ : ℕ}
    → w ≡ some f₁
    → x ≡ some f₀
    → y ≡ some n₁
    → z ≡ some n₀
    → parts w x y z ≡ some (record { file_0 = f₀; file_1 = f₁; note_0 = n₀; note_1 = n₁ })
unfolding parts
parts_lem p q r s = rw (p, q, r, s) refl

-- Where MAXUNIDSTRING is 32, an id whose parts are 32-bit numbers is read back from the string
-- that it is printed as.
pub from_string-to_string :
    (u : Unid)
    → u.file_0 < 2 ^ 32
    → u.file_1 < 2 ^ 32
    → u.note_0 < 2 ^ 32
    → u.note_1 < 2 ^ 32
    → from_string 32 (to_string u) ≡ some u
unfolding from_string to_string chunk hex
from_string-to_string u a b c d =
    parts_lem (from_chars-hex u.file_1 b) (from_chars-hex u.file_0 a) (from_chars-hex u.note_1 d)
      (from_chars-hex u.note_0 c)
