-- ===== src/Dql/Identifier.antt =====
-- Field identifiers: what `is_valid_identifier` accepts, and that such a name cannot carry query
-- syntax.
use dmn_cpp.Base.{ℕ, ◌≤◌, ◌≡◌, ◌↔◌, ◌⊎◌, refl, true, [], ◌∷◌, Bytes, all, arith}
use dmn_cpp.Dql.{is_alpha, is_alpha_num, is_valid_identifier}

-- An ASCII letter or an underscore.
abbrev pub IsLetter : ℕ → Type 0
IsLetter c = ((b'a' ≤ c) × (c ≤ b'z')) ⊎ (((b'A' ≤ c) × (c ≤ b'Z')) ⊎ (c ≡ b'_'))

abbrev pub IsDigit : ℕ → Type 0
IsDigit c = (b'0' ≤ c) × (c ≤ b'9')

abbrev pub AllWord : Bytes → Type 0
AllWord [] = Unit {0}
AllWord (c ∷ cs) = (IsLetter c ⊎ IsDigit c) × AllWord cs

-- A letter, then letters and digits.
abbrev pub IsIdentifier : Bytes → Type 0
IsIdentifier [] = ⊥
IsIdentifier (c ∷ cs) = IsLetter c × AllWord cs

is_alpha_iff : (c : ℕ) → (is_alpha c ≡ true) ↔ IsLetter c
unfolding is_alpha
is_alpha_iff c = (λ h. ground arith, λ h. ground arith)

is_alpha_num_iff : (c : ℕ) → (is_alpha_num c ≡ true) ↔ (IsLetter c ⊎ IsDigit c)
unfolding is_alpha_num is_alpha
is_alpha_num_iff c = (λ h. ground arith, λ h. ground arith)

all→AllWord : (cs : Bytes) → all is_alpha_num cs ≡ true → AllWord cs
all→AllWord [] h = tt
all→AllWord (c ∷ cs) h = ((is_alpha_num_iff c).0 (ground arith), all→AllWord cs (ground arith))

AllWord→all : (cs : Bytes) → AllWord cs → all is_alpha_num cs ≡ true
AllWord→all [] h = refl
AllWord→all (c ∷ cs) h = ground (arith, (is_alpha_num_iff c).1 h.0, AllWord→all cs h.1)

-- The validator accepts exactly the identifiers: not empty, a letter or underscore first, and then
-- letters, digits and underscores only.
pub is_valid_identifier_iff : (s : Bytes) → (is_valid_identifier s ≡ true) ↔ IsIdentifier s
unfolding is_valid_identifier
is_valid_identifier_iff [] = (λ h. cc, λ h. absurd h)
is_valid_identifier_iff (c ∷ cs) = (
  λ h. ((is_alpha_iff c).0 (ground arith), all→AllWord cs (ground arith)),
  λ h. ground (arith, (is_alpha_iff c).1 h.0, AllWord→all cs h.1),
)
