-- ===== src/TextLists/Refines.antt =====
-- The text list of src/list.cpp behaves as a sequence of strings, where the SDK's does.
use dmn_cpp.Base.{
  ℕ, suc, ◌-◌, ◌+◌, ◌^◌, ◌<◌, ◌≤◌, ◌≡◌, refl, ap, ◌∙◌, true, false, List, [], ◌∷◌, ◌++◌, some,
  Bytes, ltb, leb, ◌==◌, length, length-append, take, drop, take-append, append-nil, get_elem?, ok,
  arith,
}
use dmn_cpp.Status.{throw_if_error, is_error}
use dmn_cpp.Lmbcs.{Translate, to_string, from_string}
use dmn_cpp.TextLists.{Native, size, at, push_back, pop_back, erase, max_uint16}

-- What a list takes in memory: its type, the number of its entries, and the length and the text of each.
unfoldable pub list_size : List Bytes → ℕ
list_size [] = 4
list_size (e ∷ es) = 2 + length e + list_size es

list_size-length : (es : List Bytes) → length es + 4 ≤ list_size es
unfolding list_size
list_size-length [] = omega arith
list_size-length (e ∷ es) = omega (arith, list_size-length es)

list_size-append :
    (es : List Bytes) (b : Bytes) → list_size (es ++ b ∷ []) ≡ list_size es + (2 + length b)
unfolding list_size
list_size-append [] b = omega arith
list_size-append (e ∷ es) b = omega (arith, list_size-append es b)

-- What the SDK says of its lists, which have less than 64 KiB; of which `entries` gives the entries in order.
pub record IsList {L : Type 0} (native : Native L) (entries : L → List Bytes) : Type 0 where
  pub counts : (l : L) → native.num_entries l ≡ length (entries l)
  pub gives :
      (l : L) (i : ℕ) (b : Bytes) → get_elem? (entries l) i ≡ some b → native.get_text l i ≡ (0, b)
  pub adds :
      (l : L) (b : Bytes)
      → list_size (entries l ++ b ∷ []) < 2 ^ 16
      → (after : L) × (native.add_entry l (length (entries l)) b ≡ (0, after))
        × (entries after ≡ entries l ++ b ∷ [])
  pub removes :
      (l : L) (i : ℕ)
      → i < length (entries l)
      → (after : L) × (native.remove_entry l i ≡ (0, after))
        × (entries after ≡ take i (entries l) ++ drop (suc i) (entries l))

get_elem?-last : (xs : List Bytes) (b : Bytes) → get_elem? (xs ++ b ∷ []) (length xs) ≡ some b
get_elem?-last [] b = refl
get_elem?-last (x ∷ xs) b = get_elem?-last xs b

module _ {L : Type 0} (native : Native L) (entries : L → List Bytes) (law : IsList native entries)
    (os : Translate) where
  drop-end : (xs : List Bytes) (b : Bytes) → drop (suc (length xs)) (xs ++ b ∷ []) ≡ []
  drop-end [] b = refl
  drop-end (x ∷ xs) b = drop-end xs b

  -- Where the SDK's lists behave as `IsList` says: a string whose conversion leaves the list below
  -- 64 KiB is pushed as the last entry, from where
  -- `at` reads it, and `pop_back` takes it away again, so that the entries are what they were.
  pub pop_back-push_back :
      (l : L) (value : Bytes)
      → list_size (entries l ++ from_string os value ∷ []) < 2 ^ 16
      → (pushed : L) × (popped : L) × (push_back native os value l ≡ ok pushed)
        × (entries pushed ≡ entries l ++ from_string os value ∷ [])
        × (at native os (length (entries l)) pushed ≡ ok (to_string os (from_string os value)))
        × (pop_back native pushed ≡ ok popped)
        × (entries popped ≡ entries l)
  unfolding push_back at pop_back erase size throw_if_error is_error
  pop_back-push_back l value room =
      let b = from_string os value in
      let whole = list_size-append (entries l) b in
      let counted = list_size-length (entries l) in
      let (pushed, added, put) = law.adds l b room in
      let count : native.num_entries pushed ≡ suc (length (entries l)) =
        law.counts pushed ∙ (ap length put ∙ omega (arith, length-append (entries l) (b ∷ []))) in
      let inside : length (entries l) < length (entries pushed) =
        omega (arith, count, law.counts pushed) in
      let (popped, removed, left) = law.removes pushed (length (entries l)) inside in
      let text_at =
        law.gives pushed (length (entries l)) b (rw put (get_elem?-last (entries l) b)) in
      let short : length b < 2 ^ 16 = omega (arith, room, whole) in
      let below : length (entries l) < 2 ^ 16 - 1 = omega (arith, room, whole, counted) in
      let fits : leb (length b) max_uint16 ≡ true = ground arith in
      let few : leb (length (entries l)) max_uint16 ≡ true = ground arith in
      let within : ltb (length (entries l)) (suc (length (entries l))) ≡ true = ground arith in
      let some_left : (suc (length (entries l)) == 0) ≡ false = ground arith in
      let last : suc (length (entries l)) - 1 ≡ length (entries l) = omega arith in
      (
        pushed,
        popped,
        rw (fits, law.counts l, few, added) refl,
        put,
        rw (count, within, text_at) refl,
        rw (count, some_left, last, within, removed) refl,
        left
            ∙ rw (put, take-append (entries l) (b ∷ []), drop-end (entries l) b)
                (append-nil (entries l)),
      )
