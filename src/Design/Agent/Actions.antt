-- ===== src/Design/Agent/Actions.antt =====
-- What the action items of an agent hold.
use dmn_cpp.Base.{
  ℕ, ◌+◌, ◌%◌, ◌^◌, ◌<◌, ◌≤◌, ◌≡◌, ◌∙◌, ap, sym, refl, true, List, [], ◌∷◌, ◌++◌, append-nil,
  append_assoc, Bytes, length, drop, length-append, length-drop, take-all, drop_all, arith,
}
use dmn_cpp.Status.{throw_if_error}
use dmn_cpp.Cursor.{Outcome, done, ◌>>=◌, Cursor, make, write, write_all, u16_bytes}
use dmn_cpp.Cursor.Transfer.{flatten}
use dmn_cpp.Cursor.Chains.{>>=-cong, >>=-assoc, write_all-cons, write_all_front}
use dmn_cpp.Kind.{action, to_underlying}
use dmn_cpp.Formula.{Native, size}
use dmn_cpp.Formula.ItemName.{answer_of, get_cursor_lem}
use dmn_cpp.Design.Format.{Alloc, new_buffer}
use dmn_cpp.Design.Format.Built.{Allocates, new_buffer_lem}
use dmn_cpp.Design.Collation.Located.{checked_cast_lem}
use dmn_cpp.Design.Agent.{Ods, get_action_item_impl, lotusscript_item, formula_item}

pub record Images (ods : Ods) : Type 0 where
  pub action : (n : ℕ) → length (ods.action_header n) ≡ ods.action_header_size
  pub lotusscript : (n k : ℕ) → length (ods.lotusscript_header n k) ≡ ods.lotusscript_header_size
  pub formula : (n k : ℕ) → length (ods.formula_header n k) ≡ ods.formula_header_size

rounded_lem :
    (native : Native) (code : Bytes)
    → native.get_size code ≡ answer_of (length code)
    → size native true code ≡ done (length code + length code % 2)
unfolding size throw_if_error
rounded_lem native code e = rw e

module _ (ods : Ods) (images : Images ods) (alloc : Alloc) (allocates : Allocates alloc) where
  -- The parts of an item whose code has the given header.
  abbrev parts : Bytes → Bytes → List Bytes
  parts header code =
      u16_bytes (to_underlying action)
      ∷ ods.action_header (ods.action_header_size % 2 ^ 8)
      ∷ header
      ∷ code
      ∷ []

  writes_lem :
      (header code : Bytes) (memory : Bytes) (n header_size : ℕ)
      → new_buffer alloc (ods.action_header_size + header_size + n + 2) ≡ done (make memory)
      → (get_action_item_impl ods alloc n header_size >>= λ lock.
          write header lock >>= λ headed. write code headed >>= λ written. done written.buffer)
        ≡ (write_all (parts header code) (make memory) >>= λ written. done written.buffer)
  unfolding get_action_item_impl write_all
  writes_lem header code memory n header_size made =
      let finish : Cursor → Outcome Bytes = λ written. done written.buffer in
      let ty = u16_bytes (to_underlying action) in
      let hd = ods.action_header (ods.action_header_size % 2 ^ 8) in
      let rest : Cursor → Outcome Bytes =
        λ lock. write header lock >>= λ headed. write code headed >>= finish in
      rw made (
        >>=-assoc (write ty (make memory)) (λ typed. write hd typed) rest
        ∙ sym (
            write_all-cons ty (hd ∷ header ∷ code ∷ []) (make memory) finish
            ∙ >>=-cong (write ty (make memory)) (λ typed.
              write_all-cons hd (header ∷ code ∷ []) typed finish
              ∙ >>=-cong (write hd typed) (λ lock.
                write_all-cons header (code ∷ []) lock finish
                ∙ >>=-cong (write header lock) (λ headed. write_all-cons code [] headed finish)))))

  length-parts :
      (header code : Bytes)
      → length (flatten (parts header code))
        ≡ 2 + ods.action_header_size + length header + length code
  unfolding flatten
  length-parts header code = omega (
    arith,
    images.action (ods.action_header_size % 2 ^ 8),
    length-append (ods.action_header (ods.action_header_size % 2 ^ 8)) (header ++ (code ++ [])),
    length-append header (code ++ []),
    length-append code [],
  )

  -- The memory of an item, with what its writes do not reach.
  abbrev pub item : Bytes → Bytes → Bytes → Bytes
  item header code left =
      u16_bytes (to_underlying action)
      ++ (ods.action_header (ods.action_header_size % 2 ^ 8) ++ (header ++ (code ++ left)))

  flatten-parts :
      (header code left : Bytes) → flatten (parts header code) ++ left ≡ item header code left
  unfolding flatten
  flatten-parts header code left =
      let ah = ods.action_header (ods.action_header_size % 2 ^ 8) in
      ap (λ (b : Bytes). u16_bytes (to_underlying action) ++ b)
        (rw (append-nil code, append_assoc ah (header ++ code) left, append_assoc header code left))

  filled_lem :
      (header code memory : Bytes)
      → 2 + ods.action_header_size + length header + length code ≤ length memory
      → length memory < 2 ^ 32
      → (write_all (parts header code) (make memory) >>= λ written. done written.buffer)
        ≡ done (
            item header code
              (drop (2 + ods.action_header_size + length header + length code) memory))
  filled_lem header code memory room small =
      rw
        (
          write_all_front (parts header code) memory (omega (arith, length-parts header code, room))
              small,
          length-parts header code,
        )
        (ap (λ (b : Bytes). done b)
          (flatten-parts header code
            (drop (2 + ods.action_header_size + length header + length code) memory)))

  -- Where the whole is less than 64 KiB, the action item for LotusScript is its type, the headers and
  -- the code, and fills its memory.
  lotusscript_item_lem :
      (code : Bytes)
      → ods.action_header_size + ods.lotusscript_header_size + length code < 2 ^ 16
      → lotusscript_item ods alloc code
        ≡ done (
            item
              (ods.lotusscript_header (ods.lotusscript_header_size + length code) (length code))
              code
              [])
  unfolding lotusscript_item
  lotusscript_item_lem code small =
      let n = ods.action_header_size + ods.lotusscript_header_size + length code + 2 in
      let header =
        ods.lotusscript_header (ods.lotusscript_header_size + length code) (length code) in
      let sized = images.lotusscript (ods.lotusscript_header_size + length code) (length code) in
      let (memory, made, same) = new_buffer_lem alloc allocates n (omega arith) in
      let none_left =
        drop_all (2 + ods.action_header_size + length header + length code) memory
          (omega (arith, same, sized)) in
      rw
        (
          checked_cast_lem (length code) (omega (arith, small)),
          checked_cast_lem (ods.lotusscript_header_size + length code) (omega (arith, small)),
        )
        (writes_lem header code memory (length code) ods.lotusscript_header_size made
          ∙ (filled_lem header code memory (omega (arith, same, sized)) (omega (arith, same, small))
              ∙ ap (λ left. done (item header code left)) none_left))

  -- The action item for a formula has the same form, but where the formula's size is odd its last byte
  -- is not written: it is what the new memory held there.
  pub formula_item_lem :
      (native : Native) (code : Bytes)
      → native.get_size code ≡ answer_of (length code)
      → ods.action_header_size + ods.formula_header_size + length code + 1 < 2 ^ 16
      → (left : Bytes) × (length left ≡ length code % 2)
        × (formula_item ods alloc native code
            ≡ done (
                item
                  (ods.formula_header
                    (ods.formula_header_size + (length code + length code % 2))
                    (length code + length code % 2))
                  code
                  left))
  unfolding formula_item
  formula_item_lem native code e small =
      let even = length code + length code % 2 in
      let n = ods.action_header_size + ods.formula_header_size + even + 2 in
      let header = ods.formula_header (ods.formula_header_size + even) even in
      let sized = images.formula (ods.formula_header_size + even) even in
      let (memory, made, same) = new_buffer_lem alloc allocates n (omega arith) in
      let used = 2 + ods.action_header_size + length header + length code in
      let whole = get_cursor_lem native code (length code) e (omega arith) in
      (
        drop used memory,
        omega (arith, length-drop used memory, same, sized),
        rw
            (
              rounded_lem native code e,
              checked_cast_lem even (omega (arith, small)),
              checked_cast_lem (ods.formula_header_size + even) (omega (arith, small)),
              whole,
              take-all (length code) code refl,
            )
            (writes_lem header code memory even ods.formula_header_size made
              ∙ filled_lem header code memory (omega (arith, same, sized))
                  (omega (arith, same, small))),
      )
