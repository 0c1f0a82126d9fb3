-- ===== src/Dql/Quote.antt =====
-- String literals: what a reader of the query gets back from `dql::quote`.
use dmn_cpp.Base.{
  ℕ, ◌≡◌, refl, Bool, true, false, [], ◌∷◌, ◌++◌, append_assoc, Option, none, some, Bytes, ◌==◌,
  if◌then◌else◌, arith, Option-cases, inl, inr,
}
use dmn_cpp.Dql.{quote_char, quote_body, quote}

abbrev push : ℕ → Option (Bytes × Bytes) → Option (Bytes × Bytes)
push c none = none
push c (some (s, rest)) = some (c ∷ s, rest)

-- The rest of a literal after its opening quote: `''` stands for a quote, and any other quote ends
-- the literal. The result is the body and what follows.
pub scan_body : Bytes → Option (Bytes × Bytes)
scan_body [] = none
scan_body (c ∷ []) = if c == 39 then some ([], []) else none
scan_body (c ∷ d ∷ cs) =
    let doubled = push 39 (scan_body cs) in
    let plain = push c (scan_body (d ∷ cs)) in
    if c == 39 then (if d == 39 then doubled else some ([], d ∷ cs)) else plain

pub scan : Bytes → Option (Bytes × Bytes)
unfolding scan_body
scan [] = none
scan (c ∷ cs) = if c == 39 then scan_body cs else none

-- The escapes for the control characters, `\n`, `\r` and `\t`, read back.
pub unescape : Bytes → Bytes
unescape [] = []
unescape (c ∷ []) = c ∷ []
unescape (c ∷ d ∷ cs) =
    let short = unescape cs in
    let long = unescape (d ∷ cs) in
    if c == 92
    then (if d == b'n'
        then 10 ∷ short
        else if d == b'r'
        then 13 ∷ short
        else if d == b't'
        then 9 ∷ short
        else c ∷ long)
    else c ∷ long

-- A reader of literals: scan to the closing quote, then read the escapes.
pub read_literal : Bytes → Option (Bytes × Bytes)
unfolding scan unescape
read_literal s = elim (scan s) [ none ↦ none | some (body, rest) ↦ some (unescape body, rest) ]

-- The body of a literal with the quotes single again: only control characters are escaped.
unfoldable pub escape_char : ℕ → Bytes
escape_char c =
    if c == 10
    then 92 ∷ b'n' ∷ []
    else if c == 13
    then 92 ∷ b'r' ∷ []
    else if c == 9
    then 92 ∷ b't' ∷ []
    else c ∷ []

unfoldable pub escape_controls : Bytes → Bytes
unfolding escape_char
escape_controls [] = []
escape_controls (c ∷ cs) = escape_char c ++ escape_controls cs

abbrev pub starts_quote : Bytes → Bool
starts_quote [] = false
starts_quote (c ∷ cs) = c == 39

abbrev pub has_backslash : Bytes → Bool
has_backslash [] = false
has_backslash (c ∷ cs) = if c == 92 then true else has_backslash cs

scan_body-plain :
    (c : ℕ) (cs : Bytes) → (c == 39) ≡ false → scan_body (c ∷ cs) ≡ push c (scan_body cs)
unfolding scan_body
scan_body-plain c [] h = rw h
scan_body-plain c (d ∷ cs) h = rw h

scan_body-end : (rest : Bytes) → starts_quote rest ≡ false → scan_body (39 ∷ rest) ≡ some ([], rest)
unfolding scan_body
scan_body-end [] h = refl
scan_body-end (d ∷ rest) h = rw h

abbrev prepend : Bytes → Option (Bytes × Bytes) → Option (Bytes × Bytes)
prepend bs none = none
prepend bs (some (s, rest)) = some (bs ++ s, rest)

-- A quoted character is read as itself, with a control character's escape left as two characters.
scan_body-quote_char :
    (c : ℕ) (t : Bytes) → scan_body (quote_char c ++ t) ≡ prepend (escape_char c) (scan_body t)
unfolding quote_char escape_char scan_body
scan_body-quote_char c t = elim (Option-cases (scan_body t)) [
  | inl e ↦ ground (
    arith,
    e,
    scan_body-plain c t,
    scan_body-plain 92 (b'n' ∷ t),
    scan_body-plain 92 (b'r' ∷ t),
    scan_body-plain 92 (b't' ∷ t),
    scan_body-plain b'n' t,
    scan_body-plain b'r' t,
    scan_body-plain b't' t,
  )
  | inr (p, e) ↦ ground (
    arith,
    e,
    scan_body-plain c t,
    scan_body-plain 92 (b'n' ∷ t),
    scan_body-plain 92 (b'r' ∷ t),
    scan_body-plain 92 (b't' ∷ t),
    scan_body-plain b'n' t,
    scan_body-plain b'r' t,
    scan_body-plain b't' t,
  )
]

scan_body-quote :
    (s rest : Bytes)
    → starts_quote rest ≡ false
    → scan_body (quote_body s ++ 39 ∷ rest) ≡ some (escape_controls s, rest)
unfolding quote_body escape_controls
scan_body-quote [] rest h = scan_body-end rest h
scan_body-quote (c ∷ s) rest h = rw (
  append_assoc (quote_char c) (quote_body s) (39 ∷ rest),
  scan_body-quote_char c (quote_body s ++ 39 ∷ rest),
  scan_body-quote s rest h,
)

-- A quoted string is one literal: a reader finds its end where `quote` put it, whatever the string
-- holds, and its body is the string with only the control characters escaped.
pub scan-quote :
    (s rest : Bytes)
    → starts_quote rest ≡ false
    → scan (quote s ++ rest) ≡ some (escape_controls s, rest)
unfolding scan quote
scan-quote s rest h = rw (append_assoc (quote_body s) (39 ∷ []) rest) (scan_body-quote s rest h)

unescape-plain : (c : ℕ) (cs : Bytes) → (c == 92) ≡ false → unescape (c ∷ cs) ≡ c ∷ unescape cs
unfolding unescape
unescape-plain c [] h = refl
unescape-plain c (d ∷ cs) h = rw h

unescape-escape_controls : (s : Bytes) → has_backslash s ≡ false → unescape (escape_controls s) ≡ s
unfolding escape_controls escape_char unescape
unescape-escape_controls [] h = refl
unescape-escape_controls (c ∷ s) h =
    ground (arith, unescape-escape_controls s, unescape-plain c (escape_controls s))

-- Where a quote in a literal is written twice and a backslash in front of n, r or t stands for a control
-- character: a string without a backslash is read back from its literal, and nothing after it is
-- consumed, as long as what follows does not start with a quote.
pub read_literal-quote :
    (s rest : Bytes)
    → has_backslash s ≡ false
    → starts_quote rest ≡ false
    → read_literal (quote s ++ rest) ≡ some (s, rest)
unfolding read_literal
read_literal-quote s rest b h = rw (scan-quote s rest h, read_literal, unescape-escape_controls s b)

quote_body-append : (s t : Bytes) → quote_body (s ++ t) ≡ quote_body s ++ quote_body t
unfolding quote_body
quote_body-append [] t = refl
quote_body-append (c ∷ s) t =
    rw (quote_body-append s t, append_assoc (quote_char c) (quote_body s) (quote_body t))

-- A backslash is not escaped: wherever a string has a line feed, the string with a backslash and
-- an `n` there has the same literal.
pub quote_collision : (s t : Bytes) → quote (s ++ 10 ∷ t) ≡ quote (s ++ 92 ∷ b'n' ∷ t)
unfolding quote quote_body quote_char
quote_collision s t = rw (quote_body-append s (10 ∷ t), quote_body-append s (92 ∷ b'n' ∷ t))
