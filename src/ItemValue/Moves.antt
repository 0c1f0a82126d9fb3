-- ===== src/ItemValue/Moves.antt =====
-- Moving an item value to the next item and back.
use dmn_cpp.Base.{
  ℕ, ◌<◌, ◌^◌, ◌≡◌, ◌∙◌, ap, refl, Bool, true, false, length, ok, ◌>>=◌, arith, if◌then◌else◌,
}
use dmn_cpp.Status.{Codes, is_not_found, throw_if_error}
use dmn_cpp.Cast.{checked_cast}
use dmn_cpp.ItemValue.{
  Handles, Answer, Native, ItemValue, apply_handles, moved, move_impl, next, previous,
}

abbrev pub handles_of : ItemValue → Handles
handles_of v = record { item = v.item_bid; value = v.value_bid; size = v.size }

-- The SDK finds an item as the one before the one after it.
abbrev pub Back : Codes → Native → ItemValue → Type 0
Back codes native v =
    let after = native.info_next v.item_bid v.item in
    (after.status ≡ 0)
    × (native.info_prev after.handles.item v.item ≡ record { status = 0; handles = handles_of v })

module _ (codes : Codes) (native : Native) (h : ℕ) (plain : is_not_found codes 0 ≡ false) where
  cast_lem : (n : ℕ) → n < 2 ^ 16 → checked_cast 16 n ≡ ok n
  unfolding checked_cast
  cast_lem n small = ground arith

  if_true : {A : Type 0} (b : Bool) (x y : A) → b ≡ true → (if b then x else y) ≡ x
  if_true true x y e = refl
  if_true false x y e = cc

  move_lem :
      (forward : Bool) (v : ItemValue)
      → v.has_note ≡ true
      → length v.item < 2 ^ 16
      → move_impl codes native (ok h) forward v
        ≡ moved codes
            (if forward
              then native.info_next v.item_bid v.item
              else native.info_prev v.item_bid v.item)
            v
  unfolding move_impl
  move_lem forward v noted short =
      let answer =
        if forward
        then native.info_next v.item_bid v.item
        else native.info_prev v.item_bid v.item in
      if_true v.has_note (checked_cast 16 (length v.item) >>= λ n. moved codes answer v)
        (ok (false, v)) noted
      ∙ rw (cast_lem (length v.item) short)

  moved_lem :
      (answer : Answer) (v : ItemValue)
      → answer.status ≡ 0
      → moved codes answer v ≡ ok (true, apply_handles answer.handles v)
  unfolding moved throw_if_error
  moved_lem answer v fine = rw (fine, plain)

  -- Where there is a next item, `next` moves to it and `previous` moves back to the same item with
  -- the same value and size.
  pub previous-next :
      (v : ItemValue)
      → v.has_note ≡ true
      → length v.item < 2 ^ 16
      → Back codes native v
      → let moved_on = apply_handles (native.info_next v.item_bid v.item).handles v in
        (next codes native (ok h) v ≡ ok (true, moved_on))
        × (previous codes native (ok h) moved_on ≡ ok (true, v))
  unfolding next previous apply_handles
  previous-next v noted short (fine, back) =
      let after = native.info_next v.item_bid v.item in
      (
        move_lem true v noted short ∙ moved_lem after v fine,
        move_lem false (apply_handles after.handles v) noted short
            ∙ (ap (λ a. moved codes a (apply_handles after.handles v)) back
                ∙ moved_lem (record { status = 0; handles = handles_of v })
                    (apply_handles after.handles v) refl),
      )

  -- Where there is none, `next` says so and stays.
  pub next_last :
      (v : ItemValue)
      → length v.item < 2 ^ 16
      → is_not_found codes (native.info_next v.item_bid v.item).status ≡ true
      → next codes native (ok h) v ≡ ok (false, v)
  unfolding next move_impl moved checked_cast
  next_last v short last = ground (arith, last)
