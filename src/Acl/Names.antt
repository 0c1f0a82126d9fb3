-- ===== src/Acl/Names.antt =====
-- src/acl/names.cpp: the names in the memory of a NAMES_LIST. The size of that header and its count of
-- names are parameters; the names follow it, each with a zero byte behind it. The memory is taken to
-- hold the header, so that `substr` does not throw.
use dmn_cpp.Base.{
  HasNoNul, ℕ, zero, suc, ◌<◌, ◌≤◌, ◌≡◌, refl, true, false, List, [], ◌∷◌, ◌++◌, Option, none, some,
  Bytes, ltb, length, drop, drop-append, get_elem?, Result, ok, err, out_of_range, runtime_error,
  ◌>>=◌, ◌>>◌, guard, arith,
}
use dmn_cpp.Lmbcs.{Translate, to_string}
use dmn_cpp.Acl.RoleMap.{catch_range}

pub record Header : Type 0 where
  pub size : ℕ
  pub num_names : Bytes → ℕ

-- `find` of a zero byte: what stands before it and behind it.
unfoldable pub split_nul : Bytes → Option (Bytes × Bytes)
split_nul [] = none
split_nul (zero ∷ cs) = some ([], cs)
split_nul (suc c ∷ cs) = elim (split_nul cs) [
  | none ↦ none
  | some found ↦ some (suc c ∷ found.0, found.1)
]

unfoldable pub well_formed : Option (Bytes × Bytes) → Result (Bytes × Bytes)
well_formed none = err runtime_error
well_formed (some found) = ok found

-- The loop of `at` over the names before the one that is asked for, and that one.
unfoldable pub name_from : ℕ → Bytes → Result Bytes
unfolding well_formed
name_from zero current = do found ← well_formed (split_nul current); ok (found.0)
name_from (suc i) current = do found ← well_formed (split_nul current); name_from i (found.1)

module _ (os : Translate) (header : Header) where
  unfoldable pub size : Bytes → ℕ
  size memory = header.num_names memory

  unfoldable pub at : ℕ → Bytes → Result Bytes
  at index memory = do
    guard (ltb index (size memory)) out_of_range
    name ← name_from index (drop header.size memory)
    ok (to_string os name)

  unfoldable pub try_at : ℕ → Bytes → Result (Option Bytes)
  try_at index memory = catch_range (at index memory)

-- Names without a zero byte, and their memory behind the header.
unfoldable pub HaveNoNul : List Bytes → Type 0
HaveNoNul [] = Unit {0}
HaveNoNul (n ∷ ns) = HasNoNul n × HaveNoNul ns

unfoldable pub terminated : List Bytes → Bytes
terminated [] = []
terminated (n ∷ ns) = n ++ (0 ∷ terminated ns)

split_nul_lem : (n rest : Bytes) → HasNoNul n → split_nul (n ++ (0 ∷ rest)) ≡ some (n, rest)
unfolding split_nul HasNoNul
split_nul_lem [] rest clean = refl
split_nul_lem (zero ∷ cs) rest (nonzero, clean) = absurd (nonzero refl)
split_nul_lem (suc c ∷ cs) rest (nonzero, clean) = rw (split_nul_lem cs rest clean) refl

name_from_lem :
    (i : ℕ) (names : List Bytes) (name : Bytes)
    → HaveNoNul names
    → get_elem? names i ≡ some name
    → name_from i (terminated names) ≡ ok name
unfolding name_from HaveNoNul terminated
name_from_lem i [] name clean e = cc
name_from_lem zero (n ∷ ns) name (c, clean) e = rw (split_nul_lem n (terminated ns) c) cc
name_from_lem (suc i) (n ∷ ns) name (c, clean) e =
    rw (split_nul_lem n (terminated ns) c) (name_from_lem i ns name clean e)

-- In a memory that holds a header and then names without zero bytes, as many as the header counts,
-- `at` and `try_at` give each name, converted, at its index; from the number of names on, `at`
-- throws out_of_range and `try_at` is empty.
pub at_lem :
    (os : Translate) (header : Header) (front : Bytes) (names : List Bytes)
    → length front ≡ header.size
    → header.num_names (front ++ terminated names) ≡ length names
    → HaveNoNul names
    → ((i : ℕ) (name : Bytes)
        → i < length names
        → get_elem? names i ≡ some name
        → (at os header i (front ++ terminated names) ≡ ok (to_string os name))
          × (try_at os header i (front ++ terminated names) ≡ ok (some (to_string os name))))
      × ((i : ℕ)
          → length names ≤ i
          → (at os header i (front ++ terminated names) ≡ err out_of_range)
            × (try_at os header i (front ++ terminated names) ≡ ok none))
unfolding at try_at size catch_range
at_lem os header front names e counted clean = (
  λ i name below found.
      let inside : ltb i (length names) ≡ true = ground arith in
      let named = name_from_lem i names name clean found in
      (
        rw (counted, inside, ← e, drop-append front (terminated names), named) refl,
        rw (counted, inside, ← e, drop-append front (terminated names), named) refl,
      ),
  λ i past.
      let outside : ltb i (length names) ≡ false = ground arith in
      (rw (counted, outside) refl, rw (counted, outside) refl),
)
