-- ===== src/Cast.antt =====
-- include/dmn/detail/data_types.hpp: the checked conversion to a narrower unsigned type, which is
-- known by its number of bits.
use dmn_cpp.Base.{ℕ, ◌^◌, ltb, Result, ok, overflow_error, ◌>>◌, guard}

unfoldable pub checked_cast : ℕ → ℕ → Result ℕ
checked_cast bits value = do guard (ltb value (2 ^ bits)) overflow_error; ok value
