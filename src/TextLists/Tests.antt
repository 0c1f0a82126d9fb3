-- ===== src/TextLists/Tests.antt =====
-- A list of byte strings as the SDK's list.
use dmn_cpp.Base.{
  ℕ, suc, ◌≡◌, refl, List, [], ◌∷◌, ◌++◌, Bytes, codes, length, take, drop, get_elem?, ok, arith,
  some, none, Option,
}
use dmn_cpp.Lmbcs.{Translate, to_string, from_string}
use dmn_cpp.TextLists.{Native, push_back, pop_back, at}
use dmn_cpp.TextLists.Refines.{list_size, IsList, pop_back-push_back}

abbrev os : Translate
os = record { lmbcs_to_utf8 = λ s n. s; utf8_to_lmbcs = λ s n. s }

abbrev text_of : Option Bytes → ℕ × Bytes
text_of none = (1, [])
text_of (some b) = (0, b)

abbrev native : Native (List Bytes)
native = record {
  num_entries = length;
  get_text = λ l i. text_of (get_elem? l i);
  add_entry = λ l i b. (0, l ++ b ∷ []);
  remove_entry = λ l i. (0, take i l ++ drop (suc i) l);
  remove_all = λ l. (0, []);
}

law : IsList native (λ l. l)
law = record {
  counts = λ l. refl;
  gives = λ l i b e. rw e refl;
  adds = λ l b room. (l ++ b ∷ [], refl, refl);
  removes = λ l i below. (take i l ++ drop (suc i) l, refl, refl);
}

pop_back-push_back_example :
    (pushed : List Bytes) × (popped : List Bytes) × (push_back native os
        (codes "b")
        (codes "a" ∷ [])
      ≡ ok pushed)
    × (pushed ≡ codes "a" ∷ codes "b" ∷ [])
    × (at native os 1 pushed ≡ ok (codes "b"))
    × (pop_back native pushed ≡ ok popped)
    × (popped ≡ codes "a" ∷ [])
unfolding to_string from_string list_size
pop_back-push_back_example =
    pop_back-push_back native (λ l. l) law os (codes "a" ∷ []) (codes "b") (omega arith)
