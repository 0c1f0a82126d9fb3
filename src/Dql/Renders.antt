-- ===== src/Dql/Renders.antt =====
-- When rendering succeeds, and that what the builders return is rendered.
use dmn_cpp.Base.{
  ◌≡◌, ◌↔◌, refl, Bool, true, false, ◌++◌, codes, none, some, Bytes, is_empty, Bool-cases, inl, inr,
  Result, ok, err, invalid_argument, ◌>>=◌, guard,
}
use dmn_cpp.Dql.{
  Value, string, c_str, comparison, contains, logical_and, logical_or, logical_not, raw, Expression,
  expression, Expressions, nil, cons, is_valid_identifier, validate_field, render_identifier,
  render_value, parens, needs_parens, mode, render, render_joined, join_from,
}

abbrev pub IsOk {ℓ} : {A : Type ℓ} → Result A → Type 0
IsOk (ok a) = Unit {0}
IsOk (err e) = ⊥

module _ {Double : Type 0} where
  abbrev pub IsNonNull : Value Double → Type 0
  IsNonNull (c_str none) = ⊥
  IsNonNull (string s) = Unit {0}
  IsNonNull _ = Unit {0}

  -- What an expression needs to be rendered: identifiers for the fields that are printed, no null
  -- string, a child at least under `and` and `or`, one child under `not`, a raw text not empty.
  unfoldable mutual
    pub IsRenderable : Expression Double → Type 0
    IsRenderable (expression comparison field op value source children) =
        (is_valid_identifier field ≡ true) × IsNonNull value
    IsRenderable (expression contains field op value source children) =
        (is_valid_identifier field ≡ true) × IsNonNull value
    IsRenderable (expression logical_and field op value source children) = SomeRenderable children
    IsRenderable (expression logical_or field op value source children) = SomeRenderable children
    IsRenderable (expression logical_not field op value source (cons child nil)) =
        IsRenderable child
    IsRenderable (expression logical_not field op value source _) = ⊥
    IsRenderable (expression raw field op value source children) = is_empty source ≡ false

    pub SomeRenderable : Expressions Double → Type 0
    SomeRenderable nil = ⊥
    SomeRenderable (cons child rest) = IsRenderable child × AllRenderable rest

    pub AllRenderable : Expressions Double → Type 0
    AllRenderable nil = Unit {0}
    AllRenderable (cons child rest) = IsRenderable child × AllRenderable rest

  module _ (to_string : Double → Bytes) where
    render_value-IsOk : (v : Value Double) → IsNonNull v → IsOk (render_value to_string v)
    unfolding render_value
    render_value-IsOk (c_str none) h = h
    render_value-IsOk (c_str (some s)) h = tt
    render_value-IsOk _ h = tt

    render_value-IsNonNull : (v : Value Double) → IsOk (render_value to_string v) → IsNonNull v
    unfolding render_value
    render_value-IsNonNull (c_str none) h = h
    render_value-IsNonNull (c_str (some s)) h = tt
    render_value-IsNonNull _ h = tt

-- Two results combined fail as soon as one does.
both_IsOk {ℓ κ μ} :
    {A : Type ℓ} {B : Type κ} {C : Type μ} (m : Result A) (n : Result B) (f : A → B → C)
    → IsOk m
    → IsOk n
    → IsOk (m >>= λ a. n >>= λ b. ok (f a b))
both_IsOk (ok a) (ok b) f h k = tt
both_IsOk (ok a) (err e) f h k = k
both_IsOk (err e) n f h k = h

both_needs {ℓ κ μ} :
    {A : Type ℓ} {B : Type κ} {C : Type μ} (m : Result A) (n : Result B) (f : A → B → C)
    → IsOk (m >>= λ a. n >>= λ b. ok (f a b))
    → IsOk m × IsOk n
both_needs (ok a) (ok b) f h = (tt, tt)
both_needs (ok a) (err e) f h = absurd h
both_needs (err e) n f h = absurd h

one_IsOk {ℓ κ} :
    {A : Type ℓ} {B : Type κ} (m : Result A) (f : A → B) → IsOk m → IsOk (m >>= λ a. ok (f a))
one_IsOk (ok a) f h = tt
one_IsOk (err e) f h = h

one_needs {ℓ κ} :
    {A : Type ℓ} {B : Type κ} (m : Result A) (f : A → B) → IsOk (m >>= λ a. ok (f a)) → IsOk m
one_needs (ok a) f h = tt
one_needs (err e) f h = h

guard-IsOk_iff : (b : Bool) → IsOk (guard b invalid_argument) ↔ (b ≡ true)
guard-IsOk_iff true = (λ h. refl, λ h. tt)
guard-IsOk_iff false = (λ h. absurd h, λ h. cc)

render_identifier-IsOk_iff :
    (s : Bytes) → IsOk (render_identifier s) ↔ (is_valid_identifier s ≡ true)
unfolding render_identifier validate_field
render_identifier-IsOk_iff s = (
  λ h.
      (guard-IsOk_iff (is_valid_identifier s)).0
        (one_needs (guard (is_valid_identifier s) invalid_argument) (λ u. s) h),
  λ h.
      one_IsOk (guard (is_valid_identifier s) invalid_argument) (λ u. s)
        ((guard-IsOk_iff (is_valid_identifier s)).1 h),
)

module _ {Double : Type 0} (to_string : Double → Bytes) where
  -- The two leaves that print a field and a value need both.
  leaf_IsOk :
      (field : Bytes) (value : Value Double) (f : Bytes → Bytes → Bytes)
      → (is_valid_identifier field ≡ true) × IsNonNull value
      → IsOk
          (render_identifier field >>= λ name. render_value to_string value >>= λ v. ok (f name v))
  leaf_IsOk field value f h =
      both_IsOk (render_identifier field) (render_value to_string value) f
        ((render_identifier-IsOk_iff field).1 h.0) (render_value-IsOk to_string value h.1)

  leaf_needs :
      (field : Bytes) (value : Value Double) (f : Bytes → Bytes → Bytes)
      → IsOk
          (render_identifier field >>= λ name. render_value to_string value >>= λ v. ok (f name v))
      → (is_valid_identifier field ≡ true) × IsNonNull value
  leaf_needs field value f h =
      let parts = both_needs (render_identifier field) (render_value to_string value) f h in
      ((render_identifier-IsOk_iff field).0 parts.0, render_value-IsNonNull to_string value parts.1)

  mutual
    unfolding render IsRenderable

    render-IsOk : (e : Expression Double) → IsRenderable e → IsOk (render to_string e)
    render-IsOk (expression comparison field op value source children) h =
        leaf_IsOk field value
          (λ name operand. name ++ (codes " " ++ (op ++ (codes " " ++ operand)))) h
    render-IsOk (expression contains field op value source children) h =
        leaf_IsOk field value
          (λ name operand. name ++ (codes " contains (" ++ (operand ++ codes ")"))) h
    render-IsOk (expression logical_and field op value source children) h = joined-IsOk children _ h
    render-IsOk (expression logical_or field op value source children) h = joined-IsOk children _ h
    render-IsOk (expression logical_not field op value source nil) h = absurd h
    render-IsOk (expression logical_not field op value source (cons child nil)) h =
        one_IsOk (render to_string child) (λ text. codes "not " ++ text) (render-IsOk child h)
    render-IsOk (expression logical_not field op value source (cons child (cons more rest))) h =
        absurd h
    render-IsOk (expression raw field op value source children) h = rw h tt

    joined-IsOk :
        (es : Expressions Double) (op : Bytes)
        → SomeRenderable es
        → IsOk (render_joined to_string es op)
    joined-IsOk nil op h = absurd h
    joined-IsOk (cons child rest) op h =
        both_IsOk (render to_string child) (join_from to_string rest op)
          (λ text more. parens (needs_parens (mode child)) text ++ more) (render-IsOk child h.0)
          (join-IsOk rest op h.1)

    join-IsOk :
        (es : Expressions Double) (op : Bytes) → AllRenderable es → IsOk (join_from to_string es op)
    join-IsOk nil op h = tt
    join-IsOk (cons child rest) op h =
        both_IsOk (render to_string child) (join_from to_string rest op)
          (λ text more. op ++ (parens (needs_parens (mode child)) text ++ more))
          (render-IsOk child h.0) (join-IsOk rest op h.1)

  mutual
    unfolding render IsRenderable

    render-needs : (e : Expression Double) → IsOk (render to_string e) → IsRenderable e
    render-needs (expression comparison field op value source children) h =
        leaf_needs field value
          (λ name operand. name ++ (codes " " ++ (op ++ (codes " " ++ operand)))) h
    render-needs (expression contains field op value source children) h =
        leaf_needs field value
          (λ name operand. name ++ (codes " contains (" ++ (operand ++ codes ")"))) h
    render-needs (expression logical_and field op value source children) h =
        joined-needs children _ h
    render-needs (expression logical_or field op value source children) h =
        joined-needs children _ h
    render-needs (expression logical_not field op value source nil) h = absurd h
    render-needs (expression logical_not field op value source (cons child nil)) h =
        render-needs child (one_needs (render to_string child) (λ text. codes "not " ++ text) h)
    render-needs (expression logical_not field op value source (cons child (cons more rest))) h =
        absurd h
    render-needs (expression raw field op value source children) h =
        elim (Bool-cases (is_empty source)) [ inl e ↦ absurd (rw e at h) | inr e ↦ e ]

    joined-needs :
        (es : Expressions Double) (op : Bytes)
        → IsOk (render_joined to_string es op)
        → SomeRenderable es
    joined-needs nil op h = absurd h
    joined-needs (cons child rest) op h =
        let parts =
          both_needs (render to_string child) (join_from to_string rest op)
            (λ text more. parens (needs_parens (mode child)) text ++ more) h in
        (render-needs child parts.0, join-needs rest op parts.1)

    join-needs :
        (es : Expressions Double) (op : Bytes) → IsOk (join_from to_string es op) → AllRenderable es
    join-needs nil op h = tt
    join-needs (cons child rest) op h =
        let parts =
          both_needs (render to_string child) (join_from to_string rest op)
            (λ text more. op ++ (parens (needs_parens (mode child)) text ++ more)) h in
        (render-needs child parts.0, join-needs rest op parts.1)

  -- Rendering succeeds exactly on the expressions that are well formed, and fails on all others.
  pub render-IsOk_iff : (e : Expression Double) → IsOk (render to_string e) ↔ IsRenderable e
  render-IsOk_iff e = (render-needs e, render-IsOk e)
