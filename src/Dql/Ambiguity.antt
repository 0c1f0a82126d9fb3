-- ===== src/Dql/Ambiguity.antt =====
-- Where two different expressions have one text.
use dmn_cpp.Base.{◌≡◌, false, [], ◌++◌, append-nil, Bytes, codes, ok}
use dmn_cpp.Dql.{
  string, Expression, expression, nil, cons, logical_and, logical_not, mode, needs_parens, parens,
  render,
}

abbrev pub negation : {Double : Type 0} → Expression Double → Expression Double
negation e = expression logical_not [] [] (string []) [] (cons e nil)

abbrev pub conjunction :
    {Double : Type 0} → Expression Double → Expression Double → Expression Double
conjunction a b = expression logical_and [] [] (string []) [] (cons a (cons b nil))

-- A group under `not` gets no parentheses: the negation of "a and b" has the text of
-- "(not a) and b", for all a and b that render, with a no group itself.
pub negation-conjunction_ambiguous :
    {Double : Type 0} (to_string : Double → Bytes) (a b : Expression Double) (s t : Bytes)
    → needs_parens (mode a) ≡ false
    → render to_string a ≡ ok s
    → render to_string b ≡ ok t
    → let text = codes "not " ++ (s ++ (codes " and " ++ parens (needs_parens (mode b)) t)) in
      (render to_string (negation (conjunction a b)) ≡ ok text)
      × (render to_string (conjunction (negation a) b) ≡ ok text)
unfolding render needs_parens mode parens
negation-conjunction_ambiguous to_string a b s t p ha hb =
    (rw (ha, hb, p) (simp append-nil), rw (ha, hb) (simp append-nil))
