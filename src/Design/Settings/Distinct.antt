-- ===== src/Design/Settings/Distinct.antt =====
-- Whether settings have different names is decided by their bytes.
use dmn_cpp.Base.{
  ◌≡◌, ◌≢◌, Bool, true, false, not, ◌&&◌, List, [], ◌∷◌, Bytes, bytes_eq, bytes_eq_refl, arith,
}
use dmn_cpp.Lmbcs.{Translate, from_string}
use dmn_cpp.Design.Settings.{Setting}
use dmn_cpp.Design.Settings.Held.{Apart, AreApart}

module _ (os : Translate) where
  abbrev pub is_apart : Bytes → List Setting → Bool
  is_apart name [] = true
  is_apart name (s ∷ ss) = not (bytes_eq name (from_string os s.key)) && is_apart name ss

  abbrev pub are_apart : List Setting → Bool
  are_apart [] = true
  are_apart (s ∷ ss) = is_apart (from_string os s.key) ss && are_apart ss

  pub differ : (a b : Bytes) → bytes_eq a b ≡ false → a ≢ b
  differ a b e same = cc (e, bytes_eq_refl b)

  pub is_apart_sound :
      (name : Bytes) (ss : List Setting) → is_apart name ss ≡ true → Apart os name ss
  is_apart_sound name [] e = tt
  is_apart_sound name (s ∷ ss) e =
      (differ name (from_string os s.key) (ground arith), is_apart_sound name ss (ground arith))

  pub are_apart_sound : (ss : List Setting) → are_apart ss ≡ true → AreApart os ss
  are_apart_sound [] e = tt
  are_apart_sound (s ∷ ss) e =
      (is_apart_sound (from_string os s.key) ss (ground arith), are_apart_sound ss (ground arith))
