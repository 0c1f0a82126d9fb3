-- ===== src/Acl/Role.antt =====
-- include/dmn/acl/role.hpp: a role is made from a name with or without brackets.
use dmn_cpp.Base.{
  ℕ, suc, ◌+◌, ◌-◌, ◌≡◌, ◌≢◌, refl, true, not, ◌&&◌, [], ◌∷◌, ◌++◌, Bytes, length, length-append,
  take, drop, take-append, leb, ◌==◌, is_empty, if◌then◌else◌, Result, ok, err, invalid_argument,
  ◌>>◌, guard, arith, codes,
}

unfoldable pub front : Bytes → ℕ
front [] = 0
front (c ∷ cs) = c

unfoldable pub back : Bytes → ℕ
back [] = 0
back (c ∷ []) = c
back (c ∷ d ∷ ds) = back (d ∷ ds)

unfoldable pub normalize : Bytes → Bytes
normalize name =
    if leb 2 (length name) && ((front name == b'[') && (back name == b']'))
    then take (length name - 2) (drop 1 name)
    else name

unfoldable pub make_role : Bytes → Result Bytes
make_role name = do guard (not (is_empty (normalize name))) invalid_argument; ok (normalize name)

back-append : (s : Bytes) (c : ℕ) → back (s ++ c ∷ []) ≡ c
unfolding back
back-append [] c = refl
back-append (x ∷ []) c = refl
back-append (x ∷ y ∷ s) c = back-append (y ∷ s) c

-- One pair of brackets around a name goes, whatever the name holds.
normalize-brackets : (name : Bytes) → normalize (b'[' ∷ (name ++ b']' ∷ [])) ≡ name
unfolding normalize front
normalize-brackets name =
    let sized : length (name ++ b']' ∷ []) ≡ length name + 1 = length-append name (b']' ∷ []) in
    let long : leb 2 (suc (length (name ++ b']' ∷ []))) ≡ true = ground arith in
    let less : suc (length (name ++ b']' ∷ [])) - 2 ≡ length name = omega (arith, sized) in
    rw (long, back-append (b'[' ∷ name) b']', less, take-append name (b']' ∷ [])) refl

normalize-plain : (c : ℕ) (name : Bytes) → c ≢ b'[' → normalize (c ∷ name) ≡ c ∷ name
unfolding normalize front
normalize-plain c name e = ground arith

-- A name that is not empty and does not start with a bracket makes the same role with brackets
-- around it as alone, and keeps its text; the empty name makes none, with or without brackets.
pub make_role-brackets :
    (c : ℕ) (name : Bytes)
    → c ≢ b'['
    → (make_role (b'[' ∷ c ∷ (name ++ b']' ∷ [])) ≡ make_role (c ∷ name))
      × (make_role (c ∷ name) ≡ ok (c ∷ name))
      × (make_role [] ≡ err invalid_argument)
      × (make_role (codes "[]") ≡ err invalid_argument)
unfolding make_role normalize
make_role-brackets c name e = (
  rw (normalize-brackets (c ∷ name), normalize-plain c name e) refl,
  rw (normalize-plain c name e) refl,
  refl,
  rw (normalize-brackets []) refl,
)
