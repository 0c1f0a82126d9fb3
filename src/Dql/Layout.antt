-- ===== src/Dql/Layout.antt =====
-- The text of a group: its terms, each nested group in parentheses, with the operator between them.
use dmn_cpp.Base.{◌≡◌, refl, append-nil, List, [], ◌∷◌, ◌++◌, Bytes, ok}
use dmn_cpp.Dql.{
  Oper, logical_and, logical_or, logical_not, comparison, contains, raw, Expression, Expressions,
  nil, cons, mode, parens, needs_parens, render, render_joined, join_from,
}

unfoldable pub intercalate : Bytes → List Bytes → Bytes
intercalate op [] = []
intercalate op (t ∷ []) = t
intercalate op (t ∷ u ∷ ts) = t ++ (op ++ intercalate op (u ∷ ts))

module _ {Double : Type 0} (to_string : Double → Bytes) where
  -- The terms rendered one by one.
  abbrev pub Rendered : Expressions Double → List Bytes → Type 0
  Rendered nil [] = Unit {0}
  Rendered nil (t ∷ ts) = ⊥
  Rendered (cons e es) [] = ⊥
  Rendered (cons e es) (t ∷ ts) = (render to_string e ≡ ok t) × Rendered es ts

-- A text of a mode: that of a group is put in parentheses.
abbrev pub wrapped : Oper → Bytes → Bytes
wrapped logical_and t = 40 ∷ (t ++ 41 ∷ [])
wrapped logical_or t = 40 ∷ (t ++ 41 ∷ [])
wrapped logical_not t = t
wrapped comparison t = t
wrapped contains t = t
wrapped raw t = t

parens-wrapped : (m : Oper) (t : Bytes) → parens (needs_parens m) t ≡ wrapped m t
unfolding parens needs_parens
parens-wrapped logical_and t = refl
parens-wrapped logical_or t = refl
parens-wrapped logical_not t = refl
parens-wrapped comparison t = refl
parens-wrapped contains t = refl
parens-wrapped raw t = refl

abbrev pub enclosed : {Double : Type 0} → Expressions Double → List Bytes → List Bytes
enclosed nil ts = []
enclosed (cons e es) [] = []
enclosed (cons e es) (t ∷ ts) = wrapped (mode e) t ∷ enclosed es ts

module _ {Double : Type 0} (to_string : Double → Bytes) where
  join_from-intercalate :
      (e : Expression Double) (es : Expressions Double) (t : Bytes) (ts : List Bytes) (op : Bytes)
      → Rendered to_string es ts
      → (more : Bytes) × (join_from to_string es op ≡ ok more)
        × (t ++ more ≡ intercalate op (t ∷ enclosed es ts))
  unfolding render intercalate
  join_from-intercalate e nil t [] op h = ([], refl, append-nil t)
  join_from-intercalate e nil t (u ∷ ts) op h = absurd h
  join_from-intercalate e (cons c es) t [] op h = absurd h
  join_from-intercalate e (cons c es) t (u ∷ ts) op h =
      let (more, joined, text) = join_from-intercalate c es (wrapped (mode c) u) ts op h.1 in
      (op ++ (wrapped (mode c) u ++ more), rw (h.0, joined, parens-wrapped (mode c) u), rw text)

  -- A group whose terms render has for its text the terms' texts joined by the operator, and
  -- exactly the terms that are groups themselves stand in parentheses.
  pub render_joined-intercalate :
      (e : Expression Double) (es : Expressions Double) (ts : List Bytes) (op : Bytes)
      → Rendered to_string (cons e es) ts
      → render_joined to_string (cons e es) op ≡ ok (intercalate op (enclosed (cons e es) ts))
  unfolding render
  render_joined-intercalate e es [] op h = absurd h
  render_joined-intercalate e es (t ∷ ts) op h =
      let (more, joined, text) = join_from-intercalate e es (wrapped (mode e) t) ts op h.1 in
      rw (h.0, joined, parens-wrapped (mode e) t, text)
