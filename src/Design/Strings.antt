-- ===== src/Design/Strings.antt =====
-- The string of design flags: src/design/flags.cpp.
use dmn_cpp.Base.{
  ℕ, zero, suc, ◌≡◌, ◌≢◌, refl, ap, sym, ◌∙◌, true, false, List, [], ◌∷◌, ◌++◌, append_assoc,
  append-nil, map, Bytes, take, take-nil, replicate, HasNoNul,
}
use dmn_cpp.Design.Flags.{Flag, to_char, max_design_flags, no_flags, place, add_flag, to_string}

-- Flags added one after the other, the results of `add_flag` unused.
unfoldable pub add_all : List Flag → Bytes → Bytes
add_all [] buffer = buffer
add_all (f ∷ fs) buffer = add_all fs (add_flag f buffer).1

place_room :
    (c k : ℕ) (written : Bytes)
    → HasNoNul written
    → place c (written ++ replicate (suc k) 0) ≡ (true, (written ++ c ∷ []) ++ replicate k 0)
unfolding place HasNoNul
place_room c k [] clean = refl
place_room c k (zero ∷ w) (nonzero, clean) = absurd (nonzero refl)
place_room c k (suc d ∷ w) (nonzero, clean) = rw (place_room c k w clean) refl

place_full : (c : ℕ) (written : Bytes) → HasNoNul written → place c written ≡ (false, written)
unfolding place HasNoNul
place_full c [] clean = refl
place_full c (zero ∷ w) (nonzero, clean) = absurd (nonzero refl)
place_full c (suc d ∷ w) (nonzero, clean) = rw (place_full c w clean) refl

to_string_lem :
    (k : ℕ) (written : Bytes) → HasNoNul written → to_string (written ++ replicate k 0) ≡ written
unfolding to_string HasNoNul
to_string_lem zero [] clean = refl
to_string_lem (suc k) [] clean = refl
to_string_lem k (zero ∷ w) (nonzero, clean) = absurd (nonzero refl)
to_string_lem k (suc d ∷ w) (nonzero, clean) = ap (◌∷◌ (suc d)) (to_string_lem k w clean)

HasNoNul-snoc : (w : Bytes) (c : ℕ) → HasNoNul w → c ≢ 0 → HasNoNul (w ++ c ∷ [])
unfolding HasNoNul
HasNoNul-snoc [] c clean nonzero = (nonzero, tt)
HasNoNul-snoc (x ∷ w) c (first, clean) nonzero = (first, HasNoNul-snoc w c clean nonzero)

add_all_lem :
    (fs : List Flag) (k : ℕ) (written : Bytes)
    → HasNoNul written
    → HasNoNul (map to_char fs)
    → to_string (add_all fs (written ++ replicate k 0)) ≡ written ++ take k (map to_char fs)
unfolding add_all add_flag HasNoNul
add_all_lem [] k written clean valid =
    to_string_lem k written clean
    ∙ (sym (append-nil written) ∙ ap (λ t. written ++ t) (sym (take-nil k)))
add_all_lem (f ∷ fs) zero written clean (first, valid) =
    let rest = add_all_lem fs zero written clean valid in
    rw (append-nil written, place_full (to_char f) written clean) (rw (append-nil written) at rest)
add_all_lem (f ∷ fs) (suc k) written clean (first, valid) =
    rw (place_room (to_char f) k written clean) (
      add_all_lem fs k (written ++ to_char f ∷ []) (HasNoNul-snoc written (to_char f) clean first)
        valid
      ∙ append_assoc written (to_char f ∷ []) (take k (map to_char fs)))

-- The string of a flags object is the characters of the flags that were added, in order, none of them the
-- invalid one; what is added beyond 64 is left out.
pub to_string-add_all :
    (fs : List Flag)
    → HasNoNul (map to_char fs)
    → to_string (add_all fs no_flags) ≡ take max_design_flags (map to_char fs)
unfolding HasNoNul
to_string-add_all fs valid = add_all_lem fs max_design_flags [] tt valid
