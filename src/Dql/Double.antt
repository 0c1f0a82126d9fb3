-- ===== src/Dql/Double.antt =====
-- The trimming of a printed double: what `render_double` keeps of "digits.fraction".
use dmn_cpp.Base.{
  ℕ, suc, zero, ◌≡◌, ◌≢◌, refl, ap, sym, ◌∙◌, [], ◌∷◌, ◌++◌, reverse, append_assoc, append-nil,
  Bytes, replicate, arith,
}
use mathlib.Core.List.{reverse-append, reverse-reverse, reverse-cons}
use dmn_cpp.Dql.{pop_zeros, pop_dot, render_double}

pop_zeros-replicate : (n : ℕ) (s : Bytes) → pop_zeros (replicate n b'0' ++ s) ≡ pop_zeros s
unfolding pop_zeros
pop_zeros-replicate zero s = refl
pop_zeros-replicate (suc n) s = pop_zeros-replicate n s

replicate-snoc : (n c : ℕ) (s : Bytes) → replicate n c ++ c ∷ s ≡ c ∷ (replicate n c ++ s)
replicate-snoc zero c s = refl
replicate-snoc (suc n) c s = ap (◌∷◌ c) (replicate-snoc n c s)

reverse-replicate : (n c : ℕ) → reverse (replicate n c) ≡ replicate n c
reverse-replicate zero c = refl
reverse-replicate (suc n) c = rw (
  reverse-cons c (replicate n c),
  reverse-replicate n c,
  replicate-snoc n c [],
  append-nil (replicate n c),
)

-- Zeros at the end are gone before the point is looked at.
render_double-zeros : (s : Bytes) (n : ℕ) → render_double (s ++ replicate n b'0') ≡ render_double s
unfolding render_double
render_double-zeros s n = rw (
  reverse-append s (replicate n b'0'),
  reverse-replicate n b'0',
  pop_zeros-replicate n (reverse s),
)

render_double-snoc :
    (s : Bytes) (c : ℕ) → c ≢ b'0' → c ≢ b'.' → render_double (s ++ c ∷ []) ≡ s ++ c ∷ []
unfolding render_double pop_zeros pop_dot
render_double-snoc s c h k =
    rw (reverse-append s (c ∷ [])) (ground (arith, reverse-cons c (reverse s), reverse-reverse s))

render_double-dot : (s : Bytes) → render_double (s ++ b'.' ∷ []) ≡ s
unfolding render_double pop_zeros pop_dot
render_double-dot s = rw (reverse-append s (b'.' ∷ [])) (reverse-reverse s)

-- A fraction of zeros goes with its point, and the digits before the point stay, whatever they
-- are: a whole number's own zeros are not trimmed.
pub render_double_whole :
    (digits : Bytes) (n : ℕ) → render_double (digits ++ b'.' ∷ replicate n b'0') ≡ digits
render_double_whole digits n =
    ap render_double (sym (append_assoc digits (b'.' ∷ []) (replicate n b'0')))
    ∙ (render_double-zeros (digits ++ b'.' ∷ []) n ∙ render_double-dot digits)

-- After a fraction whose last digit is not zero, only the trailing zeros go.
pub render_double_fraction :
    (digits fraction : Bytes) (c n : ℕ)
    → c ≢ b'0'
    → c ≢ b'.'
    → render_double ((digits ++ b'.' ∷ fraction) ++ c ∷ replicate n b'0')
      ≡ (digits ++ b'.' ∷ fraction) ++ c ∷ []
render_double_fraction digits fraction c n h k =
    let s = digits ++ b'.' ∷ fraction in
    ap render_double (sym (append_assoc s (c ∷ []) (replicate n b'0')))
    ∙ (render_double-zeros (s ++ c ∷ []) n ∙ render_double-snoc s c h k)
