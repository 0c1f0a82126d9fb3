-- ===== src/Base/Decimal.antt =====
-- std::to_string of an integer, and the integers themselves over the native numbers.
use Prim.Native.Nat.{ℕ, zero, suc, ◌+◌, ◌/◌, ◌%◌, ◌<◌}
use mathlib.Core.Path.{◌≡◌}
use mathlib.Core.List.{[], ◌∷◌, ◌++◌}
use native.Mathlib.Omega.{arith}
use package.dmn_cpp.Base.Tests.{ltb, if◌then◌else◌}
use package.dmn_cpp.Base.Lists.{Bytes}

-- `negsuc n` is -(n + 1).
pub data ℤ : Type 0 where
  pos : ℕ → ℤ
  negsuc : ℕ → ℤ

-- The decimal digits, most significant first; the fuel bounds their number.
unfoldable pub decimal_fuel : ℕ → ℕ → Bytes
decimal_fuel zero n = []
decimal_fuel (suc f) n =
    let rest = decimal_fuel f (n / 10) in
    if ltb n 10 then (48 + n) ∷ [] else rest ++ (48 + n % 10) ∷ []

unfoldable pub decimal : ℕ → Bytes
unfolding decimal_fuel
decimal n = decimal_fuel (suc n) n

unfoldable pub to_string_ℤ : ℤ → Bytes
unfolding decimal
to_string_ℤ (pos n) = decimal n
to_string_ℤ (negsuc n) = b'-' ∷ decimal (suc n)

-- Any fuel above the number gives all its digits.
pub decimal_fuel-enough : (f g n : ℕ) → n < f → n < g → decimal_fuel f n ≡ decimal_fuel g n
unfolding decimal_fuel
decimal_fuel-enough zero g n p q = absurd (omega arith)
decimal_fuel-enough (suc f) zero n p q = absurd (omega arith)
decimal_fuel-enough (suc f) (suc g) n p q = ground (arith, decimal_fuel-enough f g (n / 10))
