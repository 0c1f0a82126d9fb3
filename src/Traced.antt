-- ===== src/Traced.antt =====
-- Code that makes calls which the theorems count: what it gives, and the calls in their order. An
-- exception, or an access outside memory, skips the code behind it.
use dmn_cpp.Base.{ℕ, List, [], ◌∷◌, ◌++◌}
use dmn_cpp.Status.{throw_if_error}
use dmn_cpp.Cursor.{Outcome, done, threw, fault, lift}

abbrev pub Traced : Type 0 → Type 0 → Type 0
Traced C A = Outcome A × List C

module _ {C A B : Type 0} where
  infixl 5 ◌>>=◌
  abbrev pub ◌>>=◌ : Traced C A → (A → Traced C B) → Traced C B
  (done a, calls) >>= next = let (r, more) = next a in (r, calls ++ more)
  (threw e, calls) >>= next = (threw e, calls)
  (fault, calls) >>= next = (fault, calls)

module _ {C : Type 0} where
  infixl 5 ◌>>◌
  abbrev pub ◌>>◌ : {B : Type 0} → Traced C (Unit {0}) → Traced C B → Traced C B
  first >> rest = first >>= λ u. rest

  -- A call and its status.
  unfoldable pub call : C → ℕ → Traced C (Unit {0})
  unfolding throw_if_error
  call c status = (lift (throw_if_error status), c ∷ [])

  -- Code that makes no call.
  abbrev pub silent : {A : Type 0} → Outcome A → Traced C A
  silent outcome = (outcome, [])
