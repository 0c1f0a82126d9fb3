-- ===== src/Acl/Privileges.antt =====
-- Roles written as privileges are read back: src/acl/manager.cpp, `roles_to_native` and
-- `roles_from_native`.
use dmn_cpp.Base.{or_swap, or_false, or_right, and_false, and_true, ==-refl}
use dmn_cpp.Base.{
  ℕ, zero, suc, ◌+◌, ◌≡◌, refl, ap, sym, subst, ◌∙◌, Bool, true, false, ◌&&◌, ◌||◌, List, [], ◌∷◌,
  Bytes, length, is_empty, ◌==◌, if◌then◌else◌, Result, ok, err, invalid_argument, out_of_range,
  ◌>>=◌, guard, arith, Bool-cases, inl, inr, >>=-ok, ltb,
}
use dmn_cpp.Status.{Codes}
use dmn_cpp.Lmbcs.{Translate, to_string}
use dmn_cpp.Acl.{Native}
use dmn_cpp.Acl.Access.{contains}
use dmn_cpp.Acl.Role.{make_role}
use dmn_cpp.Acl.RoleMap.{at, try_at, entries, capacity, read_name}
use dmn_cpp.Acl.Slots.{taken_from, entries-taken, try_cases, bind_ok}
use dmn_cpp.Acl.Manager.{to_privileges, passed_all, roles_to_native, set_roles, roles_from_native}

-- What the SDK says of privilege sets: none is set at first, and setting one sets that one.
unfoldable pub IsPrivileges : {Acl Priv : Type 0} → Native Acl Priv → Type 0
IsPrivileges {Acl} {Priv} native =
    ((k : ℕ) → native.is_priv_set native.no_priv k ≡ false)
    × ((j k : ℕ) (p : Priv)
        → native.is_priv_set (native.set_priv j p) k ≡ ((j == k) || native.is_priv_set p k))

-- The roles that are wanted, in the order of the slots.
unfoldable pub wanted : List (ℕ × Bytes) → List Bytes → List Bytes
wanted [] roles = []
wanted ((i, r) ∷ defined) roles =
    if contains r roles then r ∷ wanted defined roles else wanted defined roles

ok_eq : {A : Type 0} {a b : A} → ok a ≡ ok b → a ≡ b
ok_eq e = cc

wanted_step :
    (b : Bool) (r : Bytes) (rest : List Bytes)
    → (if b && true then ok (r ∷ rest) else ok rest) ≡ ok (if b then r ∷ rest else rest)
wanted_step true r rest = refl
wanted_step false r rest = refl

one_bit :
    {Acl Priv : Type 0} (native : Native Acl Priv) (i k n : ℕ) (p : Priv) (b : Bool)
    → IsPrivileges native
    → native.is_priv_set
        ((if◌then◌else◌ {A = Priv × ℕ} b
          (native.set_priv (i + native.bit_priv_count) p, suc n)
          (p, n)).0)
        k
      ≡ (((i + native.bit_priv_count == k) && b) || native.is_priv_set p k)
unfolding IsPrivileges
one_bit native i k n p true laws =
    laws.1 (i + native.bit_priv_count) k p ∙ rw (and_true (i + native.bit_priv_count == k)) refl
one_bit native i k n p false laws = rw (and_false (i + native.bit_priv_count == k)) refl

role_nonempty : (name role : Bytes) → make_role name ≡ ok role → is_empty role ≡ false
unfolding make_role
role_nonempty name role e = ground arith

module _ {Acl Priv : Type 0} (native : Native Acl Priv) (codes : Codes) (os : Translate)
    (acl : Acl) where
  -- Slots that hold the roles of a list.
  Reads : List (ℕ × Bytes) → Type 0
  Reads [] = Unit {0}
  Reads ((i, r) ∷ defined) = (at native codes os acl i ≡ ok r) × Reads defined

  abbrev ReadsResult : Result (List (ℕ × Bytes)) → Type 0
  ReadsResult (ok defined) = Reads defined
  ReadsResult (err e) = Unit {0}

  Reads-cons :
      (m : Result (List (ℕ × Bytes))) (i : ℕ) (r : Bytes)
      → at native codes os acl i ≡ ok r
      → ReadsResult m
      → ReadsResult (m >>= λ rest. ok ((i, r) ∷ rest))
  unfolding Reads
  Reads-cons (ok rest) i r e h = (e, h)
  Reads-cons (err x) i r e h = tt

  taken_from-Reads : (n key : ℕ) → ReadsResult (taken_from native codes os acl n key)
  unfolding taken_from try_at Reads
  taken_from-Reads zero key = tt
  taken_from-Reads (suc n) key = elim (try_cases (at native codes os acl key)) [
    | inl free ↦
        rw (free, bind_ok (taken_from native codes os acl n (suc key)))
          (taken_from-Reads n (suc key))
    | inr (inl (role, here, found)) ↦ rw found (
        Reads-cons (taken_from native codes os acl n (suc key)) key role here
          (taken_from-Reads n (suc key)))
    | inr (inr (x, fails)) ↦ rw fails tt
  ]

  read_nonempty :
      (status : ℕ) (name r : Bytes)
      → read_name native codes os acl (status, name) ≡ ok r
      → is_empty r ≡ false
  unfolding read_name
  read_nonempty status name r e = ground (arith, role_nonempty (to_string os name) r)

  at_nonempty : (i : ℕ) (r : Bytes) → at native codes os acl i ≡ ok r → is_empty r ≡ false
  unfolding at read_name
  at_nonempty i r e =
      let (u, p, named) = >>=-ok (guard (ltb i (capacity native codes os)) out_of_range) _ e in
      let (status, name) = native.get_priv_name acl (i + native.bit_priv_count) in
      read_nonempty status name r named

  -- The privileges that a list of slots sets.
  marks : List (ℕ × Bytes) → List Bytes → ℕ → Bool
  marks [] roles k = false
  marks ((i, r) ∷ defined) roles k =
      ((i + native.bit_priv_count == k) && contains r roles) || marks defined roles k

  bits_lem :
      (defined : List (ℕ × Bytes)) (roles : List Bytes) (state : Priv × ℕ) (k : ℕ)
      → IsPrivileges native
      → native.is_priv_set ((to_privileges native defined roles state).0) k
        ≡ (marks defined roles k || native.is_priv_set (state.0) k)
  unfolding to_privileges marks
  bits_lem [] roles state k laws = refl
  bits_lem ((i, r) ∷ defined) roles (p, n) k laws =
      bits_lem defined roles
        (if contains r roles
          then (native.set_priv (i + native.bit_priv_count) p, suc n)
          else (p, n))
        k laws
      ∙ (ap (λ b. marks defined roles k || b) (one_bit native i k n p (contains r roles) laws)
          ∙ or_swap (marks defined roles k) ((i + native.bit_priv_count == k) && contains r roles)
              (native.is_priv_set p k))

  -- A slot whose role is not asked for is marked by no slot.
  unmarked :
      (defined : List (ℕ × Bytes)) (roles : List Bytes) (i : ℕ) (r : Bytes)
      → Reads defined
      → at native codes os acl i ≡ ok r
      → contains r roles ≡ false
      → marks defined roles (i + native.bit_priv_count) ≡ false
  unfolding marks Reads
  unmarked [] roles i r reads here lacks = refl
  unmarked ((j, s) ∷ defined) roles i r (there, reads) here lacks =
      let rest = unmarked defined roles i r reads here lacks in
      elim (Bool-cases (j + native.bit_priv_count == i + native.bit_priv_count)) [
        | inr other ↦ rw (other, rest) refl
        | inl same ↦
            let j_eq : j ≡ i = ground arith in
            let s_eq : s ≡ r = ok_eq (sym there ∙ (ap (at native codes os acl) j_eq ∙ here)) in
            rw
              (
                s_eq,
                lacks,
                and_false (j + native.bit_priv_count == i + native.bit_priv_count),
                rest,
              )
              refl
      ]

  -- The bits of a privilege set are those of the roles that are asked for.
  Marked : Priv → List Bytes → List (ℕ × Bytes) → Type 0
  Marked p roles [] = Unit {0}
  Marked p roles ((i, r) ∷ defined) =
      (native.is_priv_set p (i + native.bit_priv_count) ≡ contains r roles) × Marked p roles defined

  Marked_lem :
      (all defined : List (ℕ × Bytes)) (roles : List Bytes)
      → IsPrivileges native
      → Reads all
      → Reads defined
      → ((k : ℕ) → marks defined roles k ≡ true → marks all roles k ≡ true)
      → Marked ((to_privileges native all roles (native.no_priv, 0)).0) roles defined
  unfolding Marked marks Reads IsPrivileges
  Marked_lem all [] roles laws reads these sub = tt
  Marked_lem all ((i, r) ∷ defined) roles laws reads (here, these) sub =
      let bits = bits_lem all roles (native.no_priv, 0) (i + native.bit_priv_count) laws in
      let k = i + native.bit_priv_count in
      (
        bits
            ∙ (rw ((laws.0) k, or_false (marks all roles k))
                (elim (Bool-cases (contains r roles)) [
                  | inl wants ↦ sub k (rw (wants, ==-refl k) refl) ∙ sym wants
                  | inr lacks ↦ unmarked all roles i r reads here lacks ∙ sym lacks
                ])),
        Marked_lem all defined roles laws reads these (λ j m. sub j (
            or_right ((i + native.bit_priv_count == j) && contains r roles) (marks defined roles j)
              m)),
      )

  set_roles-wanted :
      (p : Priv) (roles : List Bytes) (defined : List (ℕ × Bytes))
      → Reads defined
      → Marked p roles defined
      → set_roles native codes os acl p defined ≡ ok (wanted defined roles)
  unfolding set_roles wanted Reads Marked
  set_roles-wanted p roles [] reads marked = refl
  set_roles-wanted p roles ((i, r) ∷ defined) (here, reads) (bit, marked) =
      rw (bit, at_nonempty i r here, here, set_roles-wanted p roles defined reads marked)
        (wanted_step (contains r roles) r (wanted defined roles))

  -- Where the SDK's privilege sets behave as `IsPrivileges` says, roles for which
  -- `roles_to_native` gives privileges are read back from these: those of the slots whose role was
  -- asked for, in the order of the slots.
  pub roles_from_native-to_native :
      (roles : List Bytes) (p : Priv)
      → IsPrivileges native
      → roles_to_native native codes os acl roles ≡ ok p
      → (defined : List (ℕ × Bytes)) × (entries native codes os acl ≡ ok defined)
        × (roles_from_native native codes os acl p ≡ ok (wanted defined roles))
  unfolding roles_to_native roles_from_native passed_all
  roles_from_native-to_native roles p laws e =
      let (defined, listed, passed) = >>=-ok (entries native codes os acl) _ e in
      let (u, all, taken) =
        >>=-ok
          (guard ((to_privileges native defined roles (native.no_priv, 0)).1 == length roles)
            invalid_argument)
          _ passed in
      let reads : Reads defined =
        subst ReadsResult (sym (entries-taken native codes os acl) ∙ listed)
          (taken_from-Reads (capacity native codes os) 0) in
      let p_eq : (to_privileges native defined roles (native.no_priv, 0)).0 ≡ p = ok_eq taken in
      (
        defined,
        listed,
        rw (listed, ← p_eq)
            (set_roles-wanted _ roles defined reads
              (Marked_lem defined defined roles laws reads reads (λ k m. m))),
      )
