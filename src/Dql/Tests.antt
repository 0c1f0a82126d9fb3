-- ===== src/Dql/Tests.antt =====
-- Runs of the query builder, and its theorems at concrete inputs. A double is its printed text.
use dmn_cpp.Base.{
  ◌≡◌, ◌↔◌, refl, true, [], ◌∷◌, ◌++◌, some, Bytes, codes, ok, err, invalid_argument, pos, negsuc,
}
use dmn_cpp.Dql.{
  string, int, boolean, Expression, expression, nil, cons, eq, all_of, comparison, quote,
  render_double, render, render_joined, validate_field, render_value, parens, needs_parens, mode,
}
use dmn_cpp.Dql.Quote.{read_literal, read_literal-quote, quote_collision}
use dmn_cpp.Dql.Renders.{IsOk, IsRenderable, render-IsOk_iff}
use dmn_cpp.Dql.Built.{Built, built_nil, built_cons, by_eq, by_all, Built-render}
use dmn_cpp.Dql.Layout.{intercalate, render_joined-intercalate}
use dmn_cpp.Dql.Ambiguity.{negation, conjunction, negation-conjunction_ambiguous}

abbrev text_of : Bytes → Bytes
text_of s = s

abbrev form_is : Expression Bytes
form_is = expression comparison (codes "Form") (codes "=") (string (codes "Memo")) [] nil

abbrev size_over : Expression Bytes
size_over = expression comparison (codes "Size") (codes ">") (int (pos 120)) [] nil

abbrev form_text : Bytes
form_text = codes "Form = 'Memo'"

abbrev size_text : Bytes
size_text = codes "Size > 120"

eq_run : eq {Double = Bytes} (codes "Form") (string (codes "Memo")) ≡ ok form_is
unfolding eq
eq_run = refl

eq_rejects : eq {Double = Bytes} (codes "1st") (boolean true) ≡ err invalid_argument
unfolding eq
eq_rejects = refl

form_render : render text_of form_is ≡ ok form_text
unfolding render render_value validate_field
form_render = refl

size_render : render text_of size_over ≡ ok size_text
unfolding render render_value validate_field
size_render = refl

negative_render :
    render text_of (expression comparison (codes "N") (codes "<") (int (negsuc 41)) [] nil)
    ≡ ok (codes "N < -42")
unfolding render render_value
negative_render = refl

double_render : render_double (codes "100.250000") ≡ codes "100.25"
unfolding render_double
double_render = refl

read_literal-quote_example :
    read_literal (quote (39 ∷ 10 ∷ b'a' ∷ []) ++ codes ")") ≡ some (39 ∷ 10 ∷ b'a' ∷ [], codes ")")
read_literal-quote_example = read_literal-quote (39 ∷ 10 ∷ b'a' ∷ []) (codes ")") refl refl

quote_collision_example : quote (10 ∷ []) ≡ quote (92 ∷ b'n' ∷ [])
quote_collision_example = quote_collision [] []

render-IsOk_iff_example : IsOk (render text_of form_is) ↔ IsRenderable form_is
render-IsOk_iff_example = render-IsOk_iff text_of form_is

form_Built : Built Bytes form_is
form_Built = by_eq (codes "Form") (string (codes "Memo")) tt eq_run

both_run : all_of (form_is ∷ form_is ∷ []) ≡ ok (conjunction form_is form_is)
unfolding all_of
both_run = refl

Built-render_example : IsOk (render text_of (conjunction form_is form_is))
Built-render_example = Built-render text_of (
    by_all (form_is ∷ form_is ∷ []) (built_cons form_Built (built_cons form_Built built_nil))
      both_run)

render_joined-intercalate_example :
    render_joined text_of (cons form_is (cons (conjunction size_over form_is) nil)) (codes " or ")
    ≡ ok (codes "Form = 'Memo' or (Size > 120 and Form = 'Memo')")
unfolding intercalate needs_parens parens mode
render_joined-intercalate_example =
    render_joined-intercalate text_of form_is (cons (conjunction size_over form_is) nil)
      (form_text ∷ codes "Size > 120 and Form = 'Memo'" ∷ []) (codes " or ")
      (form_render, (unfold render render_value in refl, tt))

negation-conjunction_ambiguous_example :
    (render text_of (negation (conjunction form_is size_over))
      ≡ ok (codes "not Form = 'Memo' and Size > 120"))
    × (render text_of (conjunction (negation form_is) size_over)
        ≡ ok (codes "not Form = 'Memo' and Size > 120"))
unfolding parens needs_parens mode
negation-conjunction_ambiguous_example =
    negation-conjunction_ambiguous text_of form_is size_over form_text size_text (refl) form_render
      size_render
