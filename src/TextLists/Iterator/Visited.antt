-- ===== src/TextLists/Iterator/Visited.antt =====
-- The loop over a text list gives its entries.
use dmn_cpp.Base.{
  ℕ, suc, ◌+◌, ◌%◌, ◌^◌, ◌<◌, ◌≡◌, refl, ap, ◌∙◌, true, false, List, [], ◌∷◌, ◌++◌, some, Bytes,
  ltb, ◌==◌, length, length-append, get_elem?, map, ok, arith,
}
use dmn_cpp.Status.{throw_if_error, is_error}
use dmn_cpp.Lmbcs.{Translate, to_string}
use dmn_cpp.TextLists.{Native, size, at}
use dmn_cpp.TextLists.Refines.{IsList}
use dmn_cpp.TextLists.Iterator.{begin, end, advance, equals, deref, visit}

get_elem?-append :
    (xs : List Bytes) (y : Bytes) (ys : List Bytes) → get_elem? (xs ++ y ∷ ys) (length xs) ≡ some y
get_elem?-append [] y ys = refl
get_elem?-append (x ∷ xs) y ys = get_elem?-append xs y ys

append_assoc : (xs : List Bytes) (y : Bytes) (ys : List Bytes) → xs ++ y ∷ ys ≡ (xs ++ y ∷ []) ++ ys
append_assoc [] y ys = refl
append_assoc (x ∷ xs) y ys = ap (λ l. x ∷ l) (append_assoc xs y ys)

module _ {L : Type 0} (native : Native L) (entries : L → List Bytes) (law : IsList native entries)
    (os : Translate) where
  deref_lem :
      (l : L) (i : ℕ) (b : Bytes)
      → get_elem? (entries l) i ≡ some b
      → i < length (entries l)
      → deref native os (record { owner = l; index = i }) ≡ ok (to_string os b)
  unfolding deref at size throw_if_error is_error
  deref_lem l i b there below =
      let inside : ltb i (length (entries l)) ≡ true = ground arith in
      rw (law.counts l, inside, law.gives l i b there) refl

  visit_from :
      (l : L) (before after : List Bytes)
      → entries l ≡ before ++ after
      → length (entries l) < 2 ^ 64
      → visit native os (length after) (record { owner = l; index = length before }) (end native l)
        ≡ ok (map (to_string os) after)
  unfolding visit equals advance end size
  visit_from l before [] split short = refl
  visit_from l before (x ∷ after) split short =
      let counted : length (entries l) ≡ length before + suc (length after) =
        ap length split ∙ length-append before (x ∷ after) in
      let more : (length before == native.num_entries l) ≡ false =
        rw (law.counts l, counted) (ground arith) in
      let there : get_elem? (entries l) (length before) ≡ some x =
        rw split (get_elem?-append before x after) in
      let entry = deref_lem l (length before) x there (omega (arith, counted)) in
      let moved : (length before + 1) % 2 ^ 64 ≡ length (before ++ x ∷ []) =
        omega (arith, counted, short, length-append before (x ∷ [])) in
      let rest =
        visit_from l (before ++ x ∷ []) after (split ∙ append_assoc before x after) short in
      rw (more, entry, moved, rest) refl

  pub visit_lem :
      (l : L)
      → length (entries l) < 2 ^ 64
      → visit native os (length (entries l)) (begin l) (end native l)
        ≡ ok (map (to_string os) (entries l))
  unfolding begin
  visit_lem l short = visit_from l [] (entries l) refl short
