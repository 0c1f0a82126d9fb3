-- ===== src/Note/Listed.antt =====
-- What the walk over a note's items collects, and that it ends.
use dmn_cpp.Base.{
  ℕ, zero, suc, ◌≤◌, ◌≡◌, ◌≢◌, ◌∙◌, ap, sym, refl, Bool, true, false, List, [], ◌∷◌, ◌++◌, Option,
  none, some, Bytes, bytes_eq, bytes_eq→eq, length, Result, ok, err, native_error, Bool-cases,
  Option-cases, inl, inr, if◌then◌else◌, arith,
}
use dmn_cpp.Status.{Codes, Answer, is_not_found, throw_if_error}
use dmn_cpp.Lmbcs.{Translate, to_string}
use dmn_cpp.Note.Listing.{Walk, lookup, emplace, collect, stepped, walk_items, items}

-- The walk from an answer on goes through the items and ends with "not found".
unfoldable pub Chain : Codes → Walk → Answer → List ℕ → Type 0
Chain codes walk at [] = is_not_found codes at.status ≡ true
Chain codes walk at (b ∷ bs) = (at.status ≡ 0) × (at.handle ≡ b) × Chain codes walk (walk.next b) bs

throw_none : (n : ℕ) → n ≡ 0 → throw_if_error n ≡ ok tt
unfolding throw_if_error
throw_none n e = ground arith

abbrev pub or_else {ℓ} : {A : Type ℓ} → Option A → Option A → Option A
or_else (some a) b = some a
or_else none b = b

or_else_assoc : {A : Type 0} (a b c : Option A) → or_else (or_else a b) c ≡ or_else a (or_else b c)
or_else_assoc (some a) b c = refl
or_else_assoc none b c = refl

pub or_else-none : {A : Type 0} (a : Option A) → or_else a none ≡ a
or_else-none (some a) = refl
or_else-none none = refl

module _ {Value : Type 0} where
  unfoldable pub entry_for : Bytes → Bytes → Value → Option Value
  entry_for key k v = if bytes_eq k key then some v else none

  lookup_nil : (key : Bytes) → lookup {Value = Value} key [] ≡ none
  unfolding lookup
  lookup_nil key = refl

  pub lookup-append :
      (key k : Bytes) (v : Value) (output : List (Bytes × Value))
      → lookup key (output ++ (k, v) ∷ []) ≡ or_else (lookup key output) (entry_for key k v)
  unfolding lookup entry_for
  lookup-append key k v [] = refl
  lookup-append key k v ((k2, v2) ∷ output) = ground (arith, lookup-append key k v output)

  lookup-kept :
      (key k : Bytes) (v w : Value) (output : List (Bytes × Value))
      → lookup k output ≡ some w
      → lookup key output ≡ or_else (lookup key output) (entry_for key k v)
  unfolding entry_for
  lookup-kept key k v w output there = elim (Bool-cases (bytes_eq k key)) [
    | inl same ↦ rw (same, ap (λ n. lookup n output) (sym (bytes_eq→eq k key same)) ∙ there)
    | inr other ↦ rw other (sym (or_else-none (lookup key output)))
  ]

  lookup-emplace :
      (key k : Bytes) (v : Value) (output : List (Bytes × Value))
      → lookup key (emplace k v output) ≡ or_else (lookup key output) (entry_for key k v)
  unfolding emplace
  lookup-emplace key k v output = elim (Option-cases (lookup k output)) [
    | inl missing ↦ rw missing (lookup-append key k v output)
    | inr (w, there) ↦ rw there (lookup-kept key k v w output there)
  ]

module _ {Value : Type 0} (codes : Codes) (os : Translate) (pattern : Bytes → Bool)
    (value : Bytes → Value) (walk : Walk) (plain : is_not_found codes 0 ≡ false) where
  -- The value of the first item whose name is the key, if the pattern takes it.
  unfoldable pub first_named : Bytes → List ℕ → Option Value
  unfolding entry_for
  first_named key [] = none
  first_named key (b ∷ bs) =
      let name = to_string os (walk.name_of b) in
      or_else (if pattern name then entry_for key name (value (walk.name_of b)) else none)
        (first_named key bs)

  first_named-cons :
      (key : Bytes) (b : ℕ) (bs : List ℕ)
      → or_else (first_named key (b ∷ [])) (first_named key bs) ≡ first_named key (b ∷ bs)
  unfolding first_named
  first_named-cons key b bs =
      ap (λ o. or_else o (first_named key bs))
        (or_else-none (
          if pattern (to_string os (walk.name_of b))
          then entry_for key (to_string os (walk.name_of b)) (value (walk.name_of b))
          else none))

  module _ (item_value : Bytes → Result Value)
      (made : (name : Bytes) → item_value name ≡ ok (value name)) where
    -- One turn that ends well.
    collect_lem :
        (b : ℕ) (output : List (Bytes × Value))
        → (grown : List (Bytes × Value)) × (collect codes os pattern item_value walk
              (walk.name_of b)
              output
            ≡ ok grown)
          × ((key : Bytes)
              → lookup key grown ≡ or_else (lookup key output) (first_named key (b ∷ [])))
    unfolding collect first_named
    collect_lem b output = elim (Bool-cases (pattern (to_string os (walk.name_of b)))) [
      | inl taken ↦ (
        emplace (to_string os (walk.name_of b)) (value (walk.name_of b)) output,
        rw (taken, made (walk.name_of b)),
        λ key.
            lookup-emplace key (to_string os (walk.name_of b)) (value (walk.name_of b)) output
            ∙ rw (
              taken,
              or_else-none (entry_for key (to_string os (walk.name_of b)) (value (walk.name_of b))),
            ),
      )
      | inr skipped ↦ (output, rw skipped, λ key. rw (skipped, or_else-none (lookup key output)))
    ]

    stepped_lem :
        (bs : List ℕ) (at : Answer)
        → Chain codes walk at bs
        → stepped codes os pattern item_value walk at ≡ ok tt
    unfolding stepped Chain
    stepped_lem [] at c = ground (arith, c)
    stepped_lem (b ∷ bs) at c = ground (arith, c.0)

    turn :
        (fuel : ℕ) (at : Answer) (output grown : List (Bytes × Value))
        {end : Option (Result (List (Bytes × Value)))}
        → is_not_found codes at.status ≡ false
        → collect codes os pattern item_value walk (walk.name_of at.handle) output ≡ ok grown
        → stepped codes os pattern item_value walk (walk.next at.handle) ≡ ok tt
        → walk_items codes os pattern item_value walk fuel (walk.next at.handle) grown ≡ end
        → walk_items codes os pattern item_value walk (suc fuel) at output ≡ end
    unfolding walk_items
    turn fuel at output grown found turned passed ended = rw (found, turned, passed) ended

    walk_items_lem :
        (bs : List ℕ) (fuel : ℕ) (at : Answer) (output : List (Bytes × Value))
        → suc (length bs) ≤ fuel
        → Chain codes walk at bs
        → (final : List (Bytes × Value)) × (walk_items codes os pattern item_value walk fuel at
              output
            ≡ some (ok final))
          × ((key : Bytes) → lookup key final ≡ or_else (lookup key output) (first_named key bs))
    unfolding walk_items Chain first_named
    walk_items_lem bs zero at output enough c = absurd (omega arith)
    walk_items_lem [] (suc fuel) at output enough c =
        (output, rw c, λ key. sym (or_else-none (lookup key output)))
    walk_items_lem (b ∷ bs) (suc fuel) at output enough (fine, here, c) =
        let c2 : Chain codes walk (walk.next at.handle) bs = rw here c in
        let (grown, turned, step_keys) = collect_lem at.handle output in
        let (final, ended, keys) =
          walk_items_lem bs fuel (walk.next at.handle) grown (omega (arith, enough)) c2 in
        (
          final,
          turn fuel at output grown (rw fine plain) turned (stepped_lem bs (walk.next at.handle) c2)
              ended,
          λ key.
              keys key
              ∙ (ap (λ o. or_else o (first_named key bs)) (step_keys key)
                  ∙ (or_else_assoc (lookup key output) (first_named key (at.handle ∷ []))
                        (first_named key bs)
                      ∙ (ap (or_else (lookup key output)) (first_named-cons key at.handle bs)
                          ∙ ap (λ i. or_else (lookup key output) (first_named key (i ∷ bs)))
                              here))),
        )

    Chain-status :
        (b : ℕ) (bs : List ℕ) → Chain codes walk walk.first (b ∷ bs) → walk.first.status ≡ 0
    unfolding Chain
    Chain-status b bs c = c.0

    -- Where the SDK walks through one item or more and then answers "not found", and a value can be
    -- made of each, `items` ends within one turn more than there are items, and maps every name that
    -- the pattern takes to the value of the first item of that name, and no other name.
    pub items_lem :
        (h fuel : ℕ) (b : ℕ) (bs : List ℕ)
        → suc (suc (length bs)) ≤ fuel
        → Chain codes walk walk.first (b ∷ bs)
        → (final : List (Bytes × Value)) × (items codes os pattern item_value walk fuel (ok h)
            ≡ some (ok final))
          × ((key : Bytes) → lookup key final ≡ first_named key (b ∷ bs))
    unfolding items
    items_lem h fuel b bs enough c =
        let (final, ended, keys) = walk_items_lem (b ∷ bs) fuel walk.first [] enough c in
        (
          final,
          rw (items, throw_none walk.first.status (Chain-status b bs c)) ended,
          λ key. keys key ∙ ap (λ o. or_else o (first_named key (b ∷ bs))) (lookup_nil key),
        )

-- A note without items has no empty map: the first call's "not found" is thrown, though the loop
-- behind it would end there.
pub items_none :
    {Value : Type 0} (codes : Codes) (os : Translate) (pattern : Bytes → Bool)
    (item_value : Bytes → Result Value) (walk : Walk) (h fuel : ℕ)
    → is_not_found codes walk.first.status ≡ true
    → walk.first.status ≢ 0
    → (items codes os pattern item_value walk fuel (ok h)
        ≡ some (err (native_error walk.first.status)))
      × (walk_items codes os pattern item_value walk (suc fuel) walk.first [] ≡ some (ok []))
unfolding items throw_if_error walk_items
items_none codes os pattern item_value walk h fuel empty failed = (ground arith, rw empty)
