-- ===== src/Base/Errors.antt =====
-- The exceptions of include/dmn/error.hpp as values. Messages are left out; a native error keeps
-- its status code.
use Prim.Native.Nat.{ℕ}
use mathlib.Core.Path.{◌≡◌, refl}
use mathlib.Core.Bool.{Bool}
use package.dmn_cpp.Base.Tests.{if◌then◌else◌}

pub data Error : Type 0 where
  thread_error thread_access_error invalid_handle invalid_argument conversion_error : Error
  runtime_error overflow_error out_of_range formatting_error : Error
  native_error : ℕ → Error
  mime_error mime_io_error mime_eos_error : Error

-- What a function that may throw gives.
pub data Result {ℓ} (Value : Type ℓ) : Type ℓ where
  err : Error → Result Value
  ok : Value → Result Value

module _ {ℓ κ} {First : Type ℓ} {Second : Type κ} where
  infixl 5 ◌>>=◌
  -- The code behind a call, which an exception of the call skips.
  abbrev pub ◌>>=◌ : Result First → (First → Result Second) → Result Second
  err thrown >>= next = err thrown
  ok value >>= next = next value

  -- A sequence ends well only where its first part does and what follows does.
  pub >>=-ok :
      (call : Result First) (next : First → Result Second) {end : Second}
      → (call >>= next) ≡ ok end
      → (value : First) × (call ≡ ok value) × (next value ≡ ok end)
  >>=-ok (err thrown) next finished = cc
  >>=-ok (ok value) next finished = (value, refl, finished)

infixl 5 ◌>>◌
abbrev pub ◌>>◌ {κ} : {Second : Type κ} → Result (Unit {0}) → Result Second → Result Second
call >> rest = call >>= λ done. rest

-- A test that throws where it fails.
abbrev pub guard : Bool → Error → Result (Unit {0})
guard holds thrown = if holds then ok tt else err thrown
