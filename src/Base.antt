-- ===== src/Base.antt =====
-- The names the other modules share: the libraries', passed on, and those of the children:
-- Boolean tests, lists over native numbers, text literals as bytes, and the error values of
-- include/dmn/error.hpp with the monad that carries them.
mod Tests
mod Lists
mod Errors
mod Decimal
mod Bools
pub use Tests.*
pub use Lists.*
unfoldable pub use Lists.{HasNoNul}
pub use Errors.*
pub use Bools.*
unfoldable pub use Decimal.{decimal_fuel, decimal, to_string_ℤ}
pub use Decimal.{ℤ, pos, negsuc, decimal_fuel-enough}
pub use Prim.Native.Nat.{ℕ, zero, suc, ◌+◌, ◌-◌, ◌*◌, ◌/◌, ◌%◌, ◌^◌, ◌≤◌, ◌<◌}
pub use mathlib.Core.Path.{◌≡◌, refl, sym, ap, subst, ◌∙◌, ◌≡⟨◌⟩◌, ◌∎}
pub use mathlib.Core.Logic.{◌≢◌, ◌↔◌, ◌⊎◌, inl, inr}
pub use mathlib.Core.Bool.{Bool, true, false, not, ◌&&◌, ◌||◌}
pub use mathlib.Core.Option.{Option, none, some}
pub use mathlib.Core.List.{List, [], ◌∷◌, ◌++◌, map, reverse, append_assoc, append-nil}
pub use native.Mathlib.Omega.{arith}
