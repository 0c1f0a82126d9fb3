-- ===== src/Design/Columns.antt =====
-- A view's columns by their titles: asking for one finds it again, and leaves the others in place.
use dmn_cpp.Base.{
  ℕ, zero, suc, ◌+◌, ◌≡◌, refl, ap, subst, ◌∙◌, List, [], ◌∷◌, ◌++◌, Option, some, none, Bytes,
  bytes_eq, bytes_eq→eq, bytes_eq_refl, length, get_elem?, Result, ok, err, Bool-cases, inl, inr,
  arith,
}
use dmn_cpp.Lmbcs.{Translate, from_string}
use dmn_cpp.Design.Column.{Column}
use dmn_cpp.Design.View.{View, find_column, make_column, column, column_or_new}

find_column_sound :
    (title : Bytes) (cs : List Column) (i k : ℕ)
    → find_column title cs i ≡ some k
    → (j : ℕ) × (c : Column) × (k ≡ i + j) × (get_elem? cs j ≡ some c) × (c.title ≡ title)
unfolding find_column
find_column_sound title [] i k found = cc
find_column_sound title (c ∷ cs) i k found = elim (Bool-cases (bytes_eq c.title title)) [
  | inl same ↦ (0, c, ground (arith, same), refl, bytes_eq→eq c.title title same)
  | inr other ↦
      let (j, d, place, there, named) = find_column_sound title cs (suc i) k (rw other at found) in
      (suc j, d, omega (arith, place), there, named)
]

find_column-append :
    (title : Bytes) (cs : List Column) (c : Column) (i : ℕ)
    → find_column title cs i ≡ none
    → c.title ≡ title
    → find_column title (cs ++ c ∷ []) i ≡ some (i + length cs)
unfolding find_column
find_column-append title [] c i missing e = rw (e, bytes_eq_refl title) (ap some (omega arith))
find_column-append title (x ∷ cs) c i missing e = elim (Bool-cases (bytes_eq x.title title)) [
  | inl same ↦ ground (arith, same)
  | inr other ↦
      rw other
        (find_column-append title cs c (suc i) (rw other at missing) e ∙ ap some (omega arith))
]

get_elem?-append :
    (cs ds : List Column) (j : ℕ) (c : Column)
    → get_elem? cs j ≡ some c
    → get_elem? (cs ++ ds) j ≡ some c
get_elem?-append [] ds j c h = cc
get_elem?-append (x ∷ cs) ds zero c h = h
get_elem?-append (x ∷ cs) ds (suc j) c h = get_elem?-append cs ds j c h

get_elem?-last : (cs : List Column) (c : Column) → get_elem? (cs ++ c ∷ []) (length cs) ≡ some c
get_elem?-last [] c = refl
get_elem?-last (x ∷ cs) c = get_elem?-last cs c

-- The column at place `i` answers to the title, also when it is asked for again, and the columns of
-- the view before are in their places.
pub record Settled (os : Translate) (bold plain : ℕ) (title : Bytes) (view after : View) (i : ℕ)
    : Type 0 where
  pub found : (c : Column) × (get_elem? after.columns i ≡ some c) × (c.title ≡ from_string os title)
  pub again : (other : Result Bytes) → column os other bold plain title after ≡ ok (i, after)
  pub kept :
      (j : ℕ) (c : Column) → get_elem? view.columns j ≡ some c → get_elem? after.columns j ≡ some c

Settled-there :
    (os : Translate) (bold plain : ℕ) (title : Bytes) (view : View) (k : ℕ)
    → find_column (from_string os title) view.columns 0 ≡ some k
    → Settled os bold plain title view view k
unfolding column column_or_new
Settled-there os bold plain title view k there =
    let (j, c, place, at_j, named) =
      find_column_sound (from_string os title) view.columns 0 k there in
    let same : j ≡ k = omega (arith, place) in
    record { found = (c, rw (← same) at_j, named); again = λ other. rw there; kept = λ j c h. h }

Settled-new :
    (os : Translate) (formula : Bytes) (bold plain : ℕ) (title : Bytes) (view : View)
    → find_column (from_string os title) view.columns 0 ≡ none
    → let c = make_column formula bold plain (from_string os title) in
      Settled os bold plain title view
        (record view { columns = view.columns ++ c ∷ [] })
        (length view.columns)
unfolding column column_or_new make_column
Settled-new os formula bold plain title view missing =
    let c = make_column formula bold plain (from_string os title) in
    let place : 0 + length view.columns ≡ length view.columns = omega arith in
    record {
      found = (c, get_elem?-last view.columns c, refl);
      again = λ other.
          rw (find_column-append (from_string os title) view.columns c 0 missing refl, place);
      kept = λ j d h. get_elem?-append view.columns (c ∷ []) j d h;
    }

column_cases :
    (os : Translate) (compiled : Result Bytes) (bold plain : ℕ) (title : Bytes) (view : View)
    (o : Option ℕ) (i : ℕ) (after : View)
    → find_column (from_string os title) view.columns 0 ≡ o
    → column_or_new compiled bold plain (from_string os title) view o ≡ ok (i, after)
    → Settled os bold plain title view after i
unfolding column_or_new
column_cases os compiled bold plain title view (some k) i after there ended =
    let place : k ≡ i = cc in
    let same : view ≡ after = cc in
    subst (λ (v : View). Settled os bold plain title view v i) same
      (rw (← place) (Settled-there os bold plain title view k there))
column_cases os (err e) bold plain title view none i after there ended = cc
column_cases os (ok formula) bold plain title view none i after there ended =
    let c = make_column formula bold plain (from_string os title) in
    let place : length view.columns ≡ i = cc in
    let same : record view { columns = view.columns ++ c ∷ [] } ≡ after = cc in
    subst (λ (v : View). Settled os bold plain title view v i) same
      (rw (← place) (Settled-new os formula bold plain title view there))

-- Where `column` returns, the column at the place it gives has the title that was asked for, asking
-- for the title again gives the same place and changes nothing, whatever compiling would give then,
-- and every column that was there before is still at its place.
pub column-again :
    (os : Translate) (compiled : Result Bytes) (bold plain : ℕ) (title : Bytes) (view after : View)
    (i : ℕ)
    → column os compiled bold plain title view ≡ ok (i, after)
    → Settled os bold plain title view after i
unfolding column
column-again os compiled bold plain title view after i ended =
    column_cases os compiled bold plain title view
      (find_column (from_string os title) view.columns 0) i after refl ended
