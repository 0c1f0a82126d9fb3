-- ===== src/Value/Convert.antt =====
-- Conversions of a value, src/detail/object_value.cpp, against what they look for in its memory.
use dmn_cpp.Base.{
  ℕ, ◌^◌, ◌<◌, ◌≡◌, refl, ap, ◌∙◌, Bool, true, false, ◌&&◌, [], ◌∷◌, none, some, Bytes, length,
  drop, ltb, ◌==◌, if◌then◌else◌, arith, Bool-cases, inl, inr,
}
use dmn_cpp.Kind.{Kind, text, number, time, to_underlying}
use dmn_cpp.Lmbcs.{Translate, to_string, from_string}
use dmn_cpp.Cursor.{done, make, size, read, read_u16, u16_of}
use dmn_cpp.Cursor.Held.{At, at, At-split, At-all, read-At, bytes_at_lem}
use dmn_cpp.Value.{
  is_type, is_sized, convert_string, convert_eight, convert_double, convert_time, caught, try_as,
  apply_string, apply_double, apply_time, item_memory,
}

-- The memory starts with the number of a type.
unfoldable pub is_typed : Kind → Bytes → Bool
is_typed kind (a ∷ b ∷ bytes) = u16_of (a ∷ b ∷ []) == to_underlying kind
is_typed kind _ = false

two-At : (a b : ℕ) (bytes : Bytes) → At (a ∷ b ∷ bytes) 0 (a ∷ b ∷ []) × At (a ∷ b ∷ bytes) 2 bytes
two-At a b bytes = At-split (a ∷ b ∷ bytes) 0 (a ∷ b ∷ []) bytes (At-all (a ∷ b ∷ bytes))

is_type_lem :
    (kind : Kind) (a b : ℕ) (bytes : Bytes)
    → length (a ∷ b ∷ bytes) < 2 ^ 32
    → is_type kind (make (a ∷ b ∷ bytes))
      ≡ done (is_typed kind (a ∷ b ∷ bytes), at (a ∷ b ∷ bytes) 2)
unfolding is_type read_u16 make is_typed
is_type_lem kind a b bytes small =
    rw (read-At (a ∷ b ∷ bytes) 0 (a ∷ b ∷ []) small (two-At a b bytes).0) refl

module _ (os : Translate) where
  string_lem :
      (a b : ℕ) (bytes : Bytes)
      → length (a ∷ b ∷ bytes) < 2 ^ 32
      → convert_string os (make (a ∷ b ∷ bytes))
        ≡ done (if is_typed text (a ∷ b ∷ bytes) then some (to_string os bytes) else none)
  unfolding convert_string size
  string_lem a b bytes small =
      rw (is_type_lem text a b bytes small)
        (ground (arith, bytes_at_lem (a ∷ b ∷ bytes) 2 bytes (two-At a b bytes).1))

-- A value of a type with eight bytes of data.
unfoldable pub is_eight : Kind → Bytes → Bool
unfolding is_typed
is_eight kind memory = (length memory == 10) && is_typed kind memory

read_eight :
    (a b : ℕ) (bytes : Bytes)
    → length (a ∷ b ∷ bytes) < 2 ^ 32
    → 8 ≡ length bytes
    → read 8 (at (a ∷ b ∷ bytes) 2) ≡ done (bytes, at (a ∷ b ∷ bytes) 10)
read_eight a b bytes small e =
    rw (e, read-At (a ∷ b ∷ bytes) 2 bytes small (two-At a b bytes).1, ← e) refl

eight_lem :
    (kind : Kind) (a b : ℕ) (bytes : Bytes)
    → length (a ∷ b ∷ bytes) < 2 ^ 32
    → convert_eight kind (make (a ∷ b ∷ bytes))
      ≡ done (if is_eight kind (a ∷ b ∷ bytes) then some bytes else none)
unfolding convert_eight is_sized size make is_eight
eight_lem kind a b bytes small = elim (Bool-cases (length (a ∷ b ∷ bytes) == 10)) [
  | inr other ↦ rw other refl
  | inl sized ↦
      let e : 8 ≡ length bytes = ground arith in
      rw (sized, is_type_lem kind a b bytes small) (ground (arith, read_eight a b bytes small e))
]

module _ (os : Translate) where
  -- `try_as`, of any memory below 4 GiB, has a string exactly where the type is text, and a double or a
  -- time exactly where the type is that one and eight bytes follow: the data behind the type. It
  -- throws nothing and reads nothing outside the memory.
  pub try_as_lem :
      (memory : Bytes)
      → length memory < 2 ^ 32
      → (try_as (convert_string os) memory
          ≡ done (if is_typed text memory then some (to_string os (drop 2 memory)) else none))
        × (try_as convert_double memory
            ≡ done (if is_eight number memory then some (drop 2 memory) else none))
        × (try_as convert_time memory
            ≡ done (if is_eight time memory then some (drop 2 memory) else none))
  unfolding try_as caught convert_double convert_time is_eight is_typed
  try_as_lem [] small = (refl, refl, refl)
  try_as_lem (a ∷ []) small = (refl, refl, refl)
  try_as_lem (a ∷ b ∷ bytes) small =
      let long : ltb (length (a ∷ b ∷ bytes)) 2 ≡ false = ground arith in
      (
        rw (long, string_lem os a b bytes small) refl,
        rw (long, eight_lem number a b bytes small) refl,
        rw (long, eight_lem time a b bytes small) refl,
      )

  -- What `apply` writes into an item is read back: a string whose conversion to LMBCS is shorter
  -- than 2 GiB and converts back to it, and any double or time of eight bytes.
  pub try_as-apply :
      (text_value eight : Bytes)
      → to_string os (from_string os text_value) ≡ text_value
      → length (from_string os text_value) < 2 ^ 31
      → length eight ≡ 8
      → (try_as (convert_string os) (item_memory (apply_string os text_value))
          ≡ done (some text_value))
        × (try_as convert_double (item_memory (apply_double eight)) ≡ done (some eight))
        × (try_as convert_time (item_memory (apply_time eight)) ≡ done (some eight))
  unfolding apply_string apply_double apply_time item_memory is_eight is_typed to_underlying
  try_as-apply text_value eight same small e =
      let sized : (a b : ℕ) → (length (a ∷ b ∷ eight) == 10) ≡ true = λ a b. ground (arith, e) in
      (
        (try_as_lem (0 ∷ 5 ∷ from_string os text_value) (omega (arith, small))).0
            ∙ ap (λ t. done (some t)) same,
        (try_as_lem (0 ∷ 3 ∷ eight) (omega (arith, e))).1 ∙ rw (sized 0 3) refl,
        (try_as_lem (0 ∷ 4 ∷ eight) (omega (arith, e))).2 ∙ rw (sized 0 4) refl,
      )
