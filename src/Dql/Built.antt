-- ===== src/Dql/Built.antt =====
-- Expressions made by the public builders alone, as a user of the class makes them.
use dmn_cpp.Base.{
  ◌≡◌, refl, subst, Bool, true, false, not, List, [], ◌∷◌, Bytes, codes, is_empty, ok,
  invalid_argument, ◌>>=◌, guard, arith, Bool-cases, inl, inr,
}
use dmn_cpp.Dql.{
  Value, string, logical_not, comparison, contains, logical_and, logical_or, Expression, expression,
  nil, cons, is_valid_identifier, validate_field, comparison_expr, eq, ne, lt, lte, gt, gte,
  contains_expr, all_of, any_of, to_children, render,
}
use dmn_cpp.Dql.Renders.{IsOk, IsNonNull, IsRenderable, AllRenderable, render-IsOk_iff}

-- How an expression came about: a successful call of a builder on built terms, with no null string
-- as a value.
mutual
  pub data Built (Double : Type 0) : Expression Double → Type 0 where
    by_eq :
        (f : Bytes) (v : Value Double) {e : Expression Double}
        → IsNonNull v
        → eq f v ≡ ok e
        → Built Double e
    by_ne :
        (f : Bytes) (v : Value Double) {e : Expression Double}
        → IsNonNull v
        → ne f v ≡ ok e
        → Built Double e
    by_lt :
        (f : Bytes) (v : Value Double) {e : Expression Double}
        → IsNonNull v
        → lt f v ≡ ok e
        → Built Double e
    by_lte :
        (f : Bytes) (v : Value Double) {e : Expression Double}
        → IsNonNull v
        → lte f v ≡ ok e
        → Built Double e
    by_gt :
        (f : Bytes) (v : Value Double) {e : Expression Double}
        → IsNonNull v
        → gt f v ≡ ok e
        → Built Double e
    by_gte :
        (f : Bytes) (v : Value Double) {e : Expression Double}
        → IsNonNull v
        → gte f v ≡ ok e
        → Built Double e
    by_contains : (f t : Bytes) {e : Expression Double} → contains_expr f t ≡ ok e → Built Double e
    by_all :
        (ts : List (Expression Double)) {e : Expression Double}
        → AllBuilt Double ts
        → all_of ts ≡ ok e
        → Built Double e
    by_any :
        (ts : List (Expression Double)) {e : Expression Double}
        → AllBuilt Double ts
        → any_of ts ≡ ok e
        → Built Double e

  pub data AllBuilt (Double : Type 0) : List (Expression Double) → Type 0 where
    built_nil : AllBuilt Double []
    built_cons :
        {e : Expression Double} {es : List (Expression Double)}
        → Built Double e
        → AllBuilt Double es
        → AllBuilt Double (e ∷ es)

-- A builder that passes its check returns the expression written after it.
guarded {ℓ} :
    {A : Type ℓ} (b : Bool) (x : A) {e : A}
    → (guard b invalid_argument >>= λ _. ok x) ≡ ok e
    → (b ≡ true) × (x ≡ e)
guarded true x h = (refl, cc)
guarded false x h = cc

module _ {Double : Type 0} where
  comparison-IsRenderable :
      (f op : Bytes) (v : Value Double) {e : Expression Double}
      → IsNonNull v
      → comparison_expr f op v ≡ ok e
      → IsRenderable e
  unfolding comparison_expr validate_field IsRenderable
  comparison-IsRenderable f op v n h =
      let found = guarded (is_valid_identifier f) (expression comparison f op v [] nil) h in
      subst IsRenderable found.1 (found.0, n)

  ne-IsRenderable :
      (f : Bytes) (v : Value Double) {e : Expression Double}
      → IsNonNull v
      → ne f v ≡ ok e
      → IsRenderable e
  unfolding ne eq comparison_expr validate_field IsRenderable
  ne-IsRenderable f v {e} n h = elim (Bool-cases (is_valid_identifier f)) [
    | inl valid ↦
        subst IsRenderable
          (guarded true
            (expression logical_not [] [] (string []) []
              (cons (expression comparison f (codes "=") v [] nil) nil))
            (rw valid at h)).1
          (valid, n)
    | inr invalid ↦ ground (arith, invalid)
  ]

  contains-IsRenderable :
      (f t : Bytes) {e : Expression Double} → contains_expr f t ≡ ok e → IsRenderable e
  unfolding contains_expr validate_field IsRenderable
  contains-IsRenderable f t {e} h = elim (Bool-cases (is_valid_identifier f)) [
    | inl valid ↦
        subst IsRenderable
          (guarded (not (is_empty t)) (expression contains f [] (string t) [] nil)
            (rw valid at h)).1
          (valid, tt)
    | inr invalid ↦ ground (arith, invalid)
  ]

  mutual
    unfolding all_of any_of eq lt lte gt gte to_children IsRenderable

    Built-IsRenderable : {e : Expression Double} → Built Double e → IsRenderable e
    Built-IsRenderable (by_eq f v n h) = comparison-IsRenderable f _ v n h
    Built-IsRenderable (by_ne f v n h) = ne-IsRenderable f v n h
    Built-IsRenderable (by_lt f v n h) = comparison-IsRenderable f _ v n h
    Built-IsRenderable (by_lte f v n h) = comparison-IsRenderable f _ v n h
    Built-IsRenderable (by_gt f v n h) = comparison-IsRenderable f _ v n h
    Built-IsRenderable (by_gte f v n h) = comparison-IsRenderable f _ v n h
    Built-IsRenderable (by_contains f t h) = contains-IsRenderable f t h
    Built-IsRenderable (by_all [] b h) = cc
    Built-IsRenderable (by_all (t ∷ ts) (built_cons b bs) h) =
        subst IsRenderable
          (guarded true (expression logical_and [] [] (string []) [] (to_children (t ∷ ts))) h).1
          (Built-IsRenderable b, AllBuilt-AllRenderable bs)
    Built-IsRenderable (by_any [] b h) = cc
    Built-IsRenderable (by_any (t ∷ ts) (built_cons b bs) h) =
        subst IsRenderable
          (guarded true (expression logical_or [] [] (string []) [] (to_children (t ∷ ts))) h).1
          (Built-IsRenderable b, AllBuilt-AllRenderable bs)

    AllBuilt-AllRenderable :
        {es : List (Expression Double)} → AllBuilt Double es → AllRenderable (to_children es)
    AllBuilt-AllRenderable built_nil = tt
    AllBuilt-AllRenderable (built_cons b bs) = (Built-IsRenderable b, AllBuilt-AllRenderable bs)

  -- Whatever the builders return can be rendered: an expression made by their successful calls
  -- alone, with no null string as a value, has a text.
  pub Built-render :
      (to_string : Double → Bytes) {e : Expression Double}
      → Built Double e
      → IsOk (render to_string e)
  Built-render to_string {e} b = (render-IsOk_iff to_string e).1 (Built-IsRenderable b)
