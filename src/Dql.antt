-- ===== src/Dql.antt =====
-- include/dmn/dql.hpp and src/dql.cpp: building and rendering Domino Query Language expressions.
-- A std::string is its bytes. A double is a value of the parameter `Double`, and std::to_string on
-- doubles is the parameter `to_string`; the integers print by `to_string_ℤ`. The switch on the
-- expression's mode has no default here, since an `Oper` has no other value.
pub mod Quote
pub mod Identifier
pub mod Double
pub mod Renders
pub mod Built
pub mod Layout
pub mod Ambiguity
mod Tests
use dmn_cpp.Base.{
  ℕ, ◌+◌, Bool, true, false, not, ◌&&◌, ◌||◌, List, [], ◌∷◌, ◌++◌, reverse, Option, none, some,
  Bytes, codes, leb, ◌==◌, if◌then◌else◌, is_empty, all, length, Result, ok, err, Error,
  invalid_argument, ◌>>=◌, ◌>>◌, guard, ℤ, to_string_ℤ,
}

pub record DateTime : Type 0 where
  pub value : Bytes

-- The alternatives of `value_t`; a `const char*` that is null is `c_str none`.
pub data Value (Double : Type 0) : Type 0 where
  string : Bytes → Value Double
  c_str : Option Bytes → Value Double
  int long long_long : ℤ → Value Double
  double : Double → Value Double
  boolean : Bool → Value Double
  date_time : DateTime → Value Double

pub data Oper : Type 0 where
  comparison contains logical_and logical_or logical_not raw : Oper

-- mode, field, op, value, raw, children
mutual
  pub data Expression (Double : Type 0) : Type 0 where
    expression :
        Oper → Bytes → Bytes → Value Double → Bytes → Expressions Double → Expression Double

  pub data Expressions (Double : Type 0) : Type 0 where
    nil : Expressions Double
    cons : Expression Double → Expressions Double → Expressions Double

-- std::isalpha and std::isalnum in the "C" locale, each with '_'.
unfoldable pub is_alpha : ℕ → Bool
is_alpha c = (leb b'a' c && leb c b'z') || ((leb b'A' c && leb c b'Z') || (c == b'_'))

unfoldable pub is_alpha_num : ℕ → Bool
unfolding is_alpha
is_alpha_num c = is_alpha c || (leb b'0' c && leb c b'9')

unfoldable pub is_valid_identifier : Bytes → Bool
unfolding is_alpha is_alpha_num
is_valid_identifier [] = false
is_valid_identifier (c ∷ cs) = if not (is_alpha c) then false else all is_alpha_num cs

unfoldable pub validate_field : Bytes → Result (Unit {0})
unfolding is_valid_identifier
validate_field field = guard (is_valid_identifier field) invalid_argument

unfoldable pub render_identifier : Bytes → Result Bytes
unfolding validate_field
render_identifier field = do validate_field field; ok field

-- The case of `quote`'s switch for one character.
unfoldable pub quote_char : ℕ → Bytes
quote_char c =
    if c == 39
    then 39 ∷ 39 ∷ []
    else if c == 10
    then 92 ∷ b'n' ∷ []
    else if c == 13
    then 92 ∷ b'r' ∷ []
    else if c == 9
    then 92 ∷ b't' ∷ []
    else c ∷ []

unfoldable pub quote_body : Bytes → Bytes
unfolding quote_char
quote_body [] = []
quote_body (c ∷ cs) = quote_char c ++ quote_body cs

unfoldable pub quote : Bytes → Bytes
unfolding quote_body
quote value = 39 ∷ (quote_body value ++ 39 ∷ [])

-- `pop_back` while the last character is '0'; the string is held with its last character first.
unfoldable pub pop_zeros : Bytes → Bytes
pop_zeros [] = []
pop_zeros (c ∷ cs) = if c == b'0' then pop_zeros cs else c ∷ cs

unfoldable pub pop_dot : Bytes → Bytes
pop_dot [] = []
pop_dot (c ∷ cs) = if c == b'.' then cs else c ∷ cs

-- `out` is the text that std::to_string gives.
unfoldable pub render_double : Bytes → Bytes
unfolding pop_zeros pop_dot
render_double out = reverse (pop_dot (pop_zeros (reverse out)))

unfoldable pub datetime : Bytes → Result DateTime
datetime value = do guard (not (is_empty value)) invalid_argument; ok (record { value = value })

unfoldable pub needs_parens : Oper → Bool
needs_parens logical_and = true
needs_parens logical_or = true
needs_parens _ = false

unfoldable pub parens : Bool → Bytes → Bytes
parens b s = if b then codes "(" ++ (s ++ codes ")") else s

module _ {Double : Type 0} where
  unfoldable pub mode : Expression Double → Oper
  mode (expression m f o v r cs) = m

  unfoldable pub to_children : List (Expression Double) → Expressions Double
  to_children [] = nil
  to_children (e ∷ es) = cons e (to_children es)

  unfoldable pub comparison_expr : Bytes → Bytes → Value Double → Result (Expression Double)
  unfolding validate_field
  comparison_expr field op value = do
    validate_field field
    ok (expression comparison field op value [] nil)

  unfoldable pub eq : Bytes → Value Double → Result (Expression Double)
  unfolding comparison_expr
  eq field value = comparison_expr field (codes "=") value

  unfoldable pub ne : Bytes → Value Double → Result (Expression Double)
  unfolding eq
  ne field value = do
    child ← eq field value
    ok (expression logical_not [] [] (string []) [] (cons child nil))

  unfoldable pub lt : Bytes → Value Double → Result (Expression Double)
  unfolding comparison_expr
  lt field value = comparison_expr field (codes "<") value

  unfoldable pub lte : Bytes → Value Double → Result (Expression Double)
  unfolding comparison_expr
  lte field value = comparison_expr field (codes "<=") value

  unfoldable pub gt : Bytes → Value Double → Result (Expression Double)
  unfolding comparison_expr
  gt field value = comparison_expr field (codes ">") value

  unfoldable pub gte : Bytes → Value Double → Result (Expression Double)
  unfolding comparison_expr
  gte field value = comparison_expr field (codes ">=") value

  unfoldable pub contains_expr : Bytes → Bytes → Result (Expression Double)
  unfolding validate_field
  contains_expr field text = do
    validate_field field
    guard (not (is_empty text)) invalid_argument
    ok (expression contains field [] (string text) [] nil)

  unfoldable pub all_of : List (Expression Double) → Result (Expression Double)
  unfolding to_children
  all_of terms = do
    guard (not (is_empty terms)) invalid_argument
    ok (expression logical_and [] [] (string []) [] (to_children terms))

  unfoldable pub any_of : List (Expression Double) → Result (Expression Double)
  unfolding to_children
  any_of terms = do
    guard (not (is_empty terms)) invalid_argument
    ok (expression logical_or [] [] (string []) [] (to_children terms))

  module _ (to_string : Double → Bytes) where
    unfoldable pub render_value : Value Double → Result Bytes
    unfolding quote render_double to_string_ℤ
    render_value (string item) = ok (quote item)
    render_value (c_str none) = err invalid_argument
    render_value (c_str (some item)) = ok (quote item)
    render_value (boolean item) = ok (if item then codes "true" else codes "false")
    render_value (int item) = ok (to_string_ℤ item)
    render_value (long item) = ok (to_string_ℤ item)
    render_value (long_long item) = ok (to_string_ℤ item)
    render_value (double item) = ok (render_double (to_string item))
    render_value (date_time item) = ok (codes "@dt(" ++ (quote item.value ++ codes ")"))

    -- `join_from first` is the loop of `render_joined` from a child on: `first` is i == 0.
    unfoldable mutual
      unfolding render_identifier needs_parens mode parens

      pub render : Expression Double → Result Bytes
      render (expression comparison field op value source children) = do
        name ← render_identifier field
        operand ← render_value value
        ok (name ++ (codes " " ++ (op ++ (codes " " ++ operand))))
      render (expression contains field op value source children) = do
        name ← render_identifier field
        operand ← render_value value
        ok (name ++ (codes " contains (" ++ (operand ++ codes ")")))
      render (expression logical_and field op value source children) =
          render_joined children (codes " and ")
      render (expression logical_or field op value source children) =
          render_joined children (codes " or ")
      render (expression logical_not field op value source (cons child nil)) = do
        text ← render child
        ok (codes "not " ++ text)
      render (expression logical_not field op value source _) = err invalid_argument
      render (expression raw field op value source children) =
          if is_empty source then err invalid_argument else ok source

      pub render_joined : Expressions Double → Bytes → Result Bytes
      render_joined nil op = err invalid_argument
      render_joined (cons child rest) op = do
        text ← render child
        more ← join_from rest op
        ok (parens (needs_parens (mode child)) text ++ more)

      pub join_from : Expressions Double → Bytes → Result Bytes
      join_from nil op = ok []
      join_from (cons child rest) op = do
        text ← render child
        more ← join_from rest op
        ok (op ++ (parens (needs_parens (mode child)) text ++ more))
