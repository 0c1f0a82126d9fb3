-- ===== src/Acl/Slots.antt =====
-- The iterator of a role map lists the slots that are taken; `insert` takes the first that is free.
use dmn_cpp.Base.{
  ℕ, zero, suc, ◌+◌, ◌-◌, ◌≤◌, ◌<◌, ◌≡◌, refl, ap, sym, ◌∙◌, true, false, List, [], ◌∷◌, none, some,
  Bytes, ◌==◌, Result, ok, err, out_of_range, Error, ◌>>=◌, arith, Bool-cases, inl, inr, ◌⊎◌,
}
use dmn_cpp.Status.{Codes}
use dmn_cpp.Lmbcs.{Translate}
use dmn_cpp.Acl.{Native}
use dmn_cpp.Acl.RoleMap.{
  capacity, at, try_at, catch_range, skip_empty, iterator, walk, entries, insert_from, insert, set,
}

pub try_cases :
    (r : Result Bytes)
    → (catch_range r ≡ ok none)
      ⊎ (((role : Bytes) × (r ≡ ok role) × (catch_range r ≡ ok (some role)))
          ⊎ ((e : Error) × (catch_range r ≡ err e)))
unfolding catch_range
try_cases (ok role) = inr (inl (role, refl, refl))
try_cases (err out_of_range) = inl refl
try_cases (err e) = inr (inr (e, refl))

pub err_ok : {A : Type 0} {x : Error} {a : A} → err x ≡ ok a → ⊥
err_ok e = cc

pub bind_ok : {A : Type 0} (m : Result A) → (m >>= λ a. ok a) ≡ m
bind_ok (ok a) = refl
bind_ok (err e) = refl

bind_assoc :
    {A B C : Type 0} (m : Result A) (f : A → Result B) (g : B → Result C)
    → (m >>= λ a. (f a >>= g)) ≡ ((m >>= f) >>= g)
bind_assoc (ok a) f g = refl
bind_assoc (err e) f g = refl

module _ {Acl Priv : Type 0} (native : Native Acl Priv) (codes : Codes) (os : Translate)
    (acl : Acl) where
  -- The slots from `key` on that are taken, each with its role.
  unfoldable pub taken_from : ℕ → ℕ → Result (List (ℕ × Bytes))
  taken_from zero key = ok []
  taken_from (suc n) key = do
    here ← try_at native codes os acl key
    rest ← taken_from n (suc key)
    ok (elim here [ none ↦ rest | some r ↦ (key, r) ∷ rest ])

  walk-end :
      (f index : ℕ) → index ≡ capacity native codes os → walk native codes os acl f index ≡ ok []
  unfolding walk
  walk-end zero index e = refl
  walk-end (suc f) index e =
      let at_end : (index == capacity native codes os) ≡ true = ground (arith, e) in rw at_end refl

  walk-taken :
      (n f index : ℕ) (role : Bytes)
      → index + suc n ≡ capacity native codes os
      → at native codes os acl index ≡ ok role
      → walk native codes os acl (suc f) index ≡ (
          (skip_empty native codes os acl n (suc index) >>= walk native codes os acl f) >>= λ rest.
          ok ((index, role) ∷ rest))
  unfolding walk iterator
  walk-taken n f index role e here =
      let before : (index == capacity native codes os) ≡ false = ground (arith, e) in
      let left : capacity native codes os - suc index ≡ n = omega (arith, e) in
      rw (before, here, left)
        (bind_assoc (skip_empty native codes os acl n (suc index)) (walk native codes os acl f) _)

  walk_lem :
      (n f index : ℕ)
      → n ≤ f
      → index + n ≡ capacity native codes os
      → (skip_empty native codes os acl n index >>= walk native codes os acl f) ≡ taken_from n index
  unfolding skip_empty taken_from try_at
  walk_lem zero f index p e = walk-end f index (omega (arith, e))
  walk_lem (suc n) zero index p e = absurd (omega (arith, p))
  walk_lem (suc n) (suc f) index p e = elim (try_cases (at native codes os acl index)) [
    | inl gone ↦ rw gone (
        walk_lem n (suc f) (suc index) (omega (arith, p)) (omega (arith, e))
        ∙ sym (bind_ok (taken_from n (suc index))))
    | inr (inl (role, here, found)) ↦ rw found (
        walk-taken n f index role e here
        ∙ ap (λ m. m >>= λ rest. ok ((index, role) ∷ rest))
            (walk_lem n f (suc index) (omega (arith, p)) (omega (arith, e))))
    | inr (inr (x, fails)) ↦ rw fails refl
  ]

  -- A loop over a role map goes over exactly the slots below the capacity that are taken, in order,
  -- each with its role; it fails as reading the slots one by one does.
  pub entries-taken : entries native codes os acl ≡ taken_from (capacity native codes os) 0
  unfolding entries iterator
  entries-taken =
      let e : capacity native codes os - 0 ≡ capacity native codes os = omega arith in
      rw e (
        walk_lem (capacity native codes os) (capacity native codes os) 0 (omega arith)
          (omega arith))

  insert_first :
      (n key : ℕ) (value : Bytes) (after : Acl)
      → insert_from native codes os acl n key value ≡ ok after
      → (slot : ℕ) × (key ≤ slot)
        × (slot < key + n)
        × (try_at native codes os acl slot ≡ ok none)
        × (set native codes os acl slot value ≡ ok after)
        × ((k : ℕ)
            → key ≤ k
            → k < slot
            → (r : Bytes) × (try_at native codes os acl k ≡ ok (some r)))
  unfolding insert_from try_at
  insert_first zero key value after e = absurd (ground arith)
  insert_first (suc n) key value after e = elim (try_cases (at native codes os acl key)) [
    | inl free ↦
        (key, omega arith, omega arith, free, rw free at e, λ k a b. absurd (omega (arith, a, b)))
    | inr (inl (role, here, found)) ↦
        let (slot, low, high, open_slot, done, before) =
          insert_first n (suc key) value after (rw found at e) in
        (
          slot,
          omega (arith, low),
          omega (arith, high),
          open_slot,
          done,
          λ k a b. elim (Bool-cases (k == key)) [
            | inl same ↦
                let k_eq : k ≡ key = ground arith in
                (role, ap (try_at native codes os acl) k_eq ∙ found)
            | inr other ↦ before k (ground arith) b
          ],
        )
    | inr (inr (x, fails)) ↦ absurd (err_ok (rw fails at e))
  ]

  -- A role that is inserted goes to the first slot that is free, below the capacity: all slots
  -- before it are taken.
  pub insert_lem :
      (value : Bytes) (after : Acl)
      → insert native codes os acl value ≡ ok after
      → (slot : ℕ) × (slot < capacity native codes os)
        × (try_at native codes os acl slot ≡ ok none)
        × (set native codes os acl slot value ≡ ok after)
        × ((k : ℕ) → k < slot → (r : Bytes) × (try_at native codes os acl k ≡ ok (some r)))
  unfolding insert
  insert_lem value after e =
      let (slot, low, high, free, done, before) =
        insert_first (capacity native codes os) 0 value after e in
      (slot, omega (arith, high), free, done, λ k below. before k (omega arith) below)
