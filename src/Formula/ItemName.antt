-- ===== src/Formula/ItemName.antt =====
-- `add_item_name` on a whole formula: the code moves behind the name, and the header tells of it.
use dmn_cpp.Base.{
  ℕ, ◌+◌, ◌-◌, ◌%◌, ◌^◌, ◌≤◌, ◌<◌, ◌≡◌, ◌≢◌, ◌∙◌, ap, sym, refl, true, List, [], ◌∷◌, ◌++◌, Bytes,
  length, take, drop, length-take, length-append, take-append, take-append-drop, take-append_past,
  drop-append_past, take-all, drop_all, append_assoc, append-nil, ◌==◌, leb, if◌then◌else◌,
  runtime_error, arith,
}
use dmn_cpp.Status.{Answer, throw_if_error}
use dmn_cpp.Cast.{checked_cast}
use dmn_cpp.Cursor.{
  Outcome, done, threw, ◌>>=◌, make, read, write_all, bytes_at, store_at, u16_bytes,
}
use dmn_cpp.Cursor.Transfer.{flatten, write_all_over}
use dmn_cpp.Cursor.Held.{At, read-At}
use dmn_cpp.Formula.{
  Native, Header, Plan, header_bytes, header_of, make_plan, move_code, header_pieces, size,
  get_cursor, resize, accept, rewrite_with, add_item_name,
}

abbrev pub answer_of : ℕ → Answer
answer_of n = record { status = 0; handle = n }

header_of-bytes :
    (hdr : Header)
    → hdr.length < 2 ^ 16
    → hdr.flags < 2 ^ 16
    → hdr.offset < 2 ^ 16
    → header_of (header_bytes hdr) ≡ hdr
unfolding header_of header_bytes
header_of-bytes hdr a b c = ground arith

header_found :
    (hdr : Header) (rest : Bytes)
    → length rest < 2 ^ 16
    → read 6 (make (header_bytes hdr ++ rest))
      ≡ done (header_bytes hdr, record { buffer = header_bytes hdr ++ rest; offset = 6 })
unfolding header_bytes make At
header_found hdr rest small =
    read-At (header_bytes hdr ++ rest) 0 (header_bytes hdr) (omega (arith, small))
      (omega arith, (rest, refl))

refused : (hdr : Header) (n : ℕ) → hdr.flags ≢ 0 → make_plan hdr n ≡ threw runtime_error
unfolding make_plan
refused hdr n flagged = ground arith

pub get_cursor_lem :
    (os : Native) (memory : Bytes) (n : ℕ)
    → os.get_size memory ≡ answer_of n
    → n ≤ length memory
    → get_cursor os memory ≡ done (make (take n memory))
unfolding get_cursor size bytes_at throw_if_error
get_cursor_lem os memory n e fits =
    let inside : leb (0 + n) (length memory) ≡ true = ground arith in
    let whole : n + 0 ≡ n = omega arith in rw (e, whole, bytes_at, inside)

-- What a name takes in front of the code.
unfoldable pub section : ℕ → ℕ
section n = 2 + n + (2 + n) % 2

make_plan_lem :
    (hdr : Header) (n : ℕ)
    → hdr.flags ≡ 0
    → hdr.length + section n < 2 ^ 16
    → hdr.offset + section n < 2 ^ 16
    → make_plan hdr n
      ≡ done (record {
        name_size = n;
        padding = (2 + n) % 2;
        padded_size = section n;
        new_length = hdr.length + section n;
        new_offset = hdr.offset + section n;
      })
unfolding make_plan checked_cast section
make_plan_lem hdr n e a b = ground arith

move_code_lem :
    (hdr : Header) (plan : Plan) (header code extra : Bytes)
    → length header ≡ 6
    → hdr.length ≡ 6 + length code
    → hdr.length < 2 ^ 16
    → length extra ≡ plan.padded_size
    → move_code hdr plan (header ++ (code ++ extra))
      ≡ done (take (6 + plan.padded_size) (header ++ (code ++ extra)) ++ code)
unfolding move_code bytes_at store_at
move_code_lem hdr plan header code extra h l small x =
    let count : (hdr.length + 2 ^ 64 - 6) % 2 ^ 64 ≡ length code = omega (arith, l, small) in
    let whole = length-append header (code ++ extra) in
    let both = length-append code extra in
    let read_fits : leb (6 + length code) (length (header ++ (code ++ extra))) ≡ true =
      ground (arith, whole, both, h) in
    let store_fits : leb (6 + plan.padded_size + length code) (length (header ++ (code ++ extra)))
        ≡ true =
      ground (arith, whole, both, h, x) in
    let found : drop 6 (header ++ (code ++ extra)) ≡ code ++ extra =
      drop-append_past header (code ++ extra) 6 0 (omega (arith, h)) in
    let rest : drop (6 + plan.padded_size + length code) (header ++ (code ++ extra)) ≡ [] =
      drop_all (6 + plan.padded_size + length code) (header ++ (code ++ extra))
        (omega (arith, whole, both, h, x)) in
    rw (count, read_fits, found, take-append code extra, store_fits, rest, append-nil code)

unfoldable pub pad : ℕ → Bytes
pad n = if n == 0 then [] else 0 ∷ []

flatten-pad : (n : ℕ) → flatten (if n == 0 then [] else (0 ∷ []) ∷ []) ≡ pad n
unfolding flatten pad
flatten-pad n = ground arith

-- The name's size, the name and its padding.
unfoldable pub label : Bytes → Bytes
unfolding pad
label name = u16_bytes (length name) ++ (name ++ pad ((2 + length name) % 2))

-- What stands in front of the code.
unfoldable pub tag : Header → Bytes → Bytes
unfolding label
tag hdr name =
    header_bytes (record {
      length = hdr.length + section (length name);
      flags = 2;
      offset = hdr.offset + section (length name);
    })
    ++ label name

length-pad : (n : ℕ) → length (pad (n % 2)) ≡ n % 2
unfolding pad
length-pad n = ground arith

pub length-tag : (hdr : Header) (name : Bytes) → length (tag hdr name) ≡ 6 + section (length name)
unfolding tag label header_bytes section
length-tag hdr name =
    omega (arith, length-pad (2 + length name), length-append name (pad ((2 + length name) % 2)))

plan_of : Header → ℕ → Plan
plan_of hdr n = record {
  name_size = n;
  padding = (2 + n) % 2;
  padded_size = section n;
  new_length = hdr.length + section n;
  new_offset = hdr.offset + section n;
}

flatten-header_pieces :
    (hdr : Header) (name : Bytes)
    → flatten (header_pieces (plan_of hdr (length name)) name) ≡ tag hdr name
unfolding header_pieces tag label flatten plan_of
flatten-header_pieces hdr name = rw (flatten-pad ((2 + length name) % 2))

write_pieces :
    (pieces : List Bytes) (pre code : Bytes) (n : ℕ)
    → length (flatten pieces) ≡ length pre
    → length pre ≤ n
    → n ≤ length (pre ++ code)
    → length (pre ++ code) < 2 ^ 32
    → (write_all pieces (make (take n (pre ++ code))) >>= λ written.
        done (written.buffer ++ drop n (pre ++ code)))
      ≡ done (flatten pieces ++ code)
unfolding make
write_pieces pieces pre code n e low high small =
    let k = n - length pre in
    let split : n ≡ length pre + k = omega (arith, low) in
    let kept = take-append-drop k code in
    let fits : length (pre ++ take k code) < 2 ^ 32 =
      omega (
        arith,
        length-append pre code,
        length-append pre (take k code),
        length-take k code,
        small,
      ) in
    rw (
      take-append_past pre code n k split,
      drop-append_past pre code n k split,
      write_all_over pieces [] pre (take k code) e fits,
      append_assoc (flatten pieces) (take k code) (drop k code),
      kept,
    )

module _ (os : Native) (hdr : Header) (name code extra : Bytes) (n : ℕ) (plain : hdr.flags ≡ 0)
    (consistent : hdr.length ≡ 6 + length code)
    (length_fits : hdr.length + section (length name) < 2 ^ 16)
    (offset_fits : hdr.offset + section (length name) < 2 ^ 16)
    (sized : os.get_size (header_bytes hdr ++ code) ≡ answer_of hdr.length)
    (resized : os.realloc (hdr.length + section (length name)) (header_bytes hdr ++ code)
      ≡ (0, header_bytes hdr ++ (code ++ extra)))
    (grown : length extra ≡ section (length name))
    (sized_after : os.get_size (header_bytes hdr ++ (code ++ extra)) ≡ answer_of n)
    (enough : 6 + section (length name) ≤ n) (within : n ≤ hdr.length + section (length name)) where
  memory : Bytes
  memory = header_bytes hdr ++ code

  grown_memory : Bytes
  grown_memory = header_bytes hdr ++ (code ++ extra)

  length-memory : length (header_bytes hdr ++ code) ≡ hdr.length
  unfolding header_bytes
  length-memory = omega (arith, consistent)

  length-grown : length (header_bytes hdr ++ (code ++ extra)) ≡ hdr.length + section (length name)
  unfolding header_bytes
  length-grown = omega (arith, consistent, grown, length-append code extra)

  first_cursor : get_cursor os (header_bytes hdr ++ code) ≡ done (make (header_bytes hdr ++ code))
  first_cursor = rw (
    get_cursor_lem os (header_bytes hdr ++ code) hdr.length sized (omega (arith, length-memory)),
    take-all hdr.length (header_bytes hdr ++ code) length-memory,
  )

  resize_lem :
      resize os (hdr.length + section (length name)) (header_bytes hdr ++ code)
      ≡ done (header_bytes hdr ++ (code ++ extra))
  unfolding resize accept throw_if_error
  resize_lem = rw resized

  rewrite_with_lem :
      rewrite_with os hdr (plan_of hdr (length name)) name (header_bytes hdr ++ code)
      ≡ done (tag hdr name ++ code)
  unfolding rewrite_with plan_of
  rewrite_with_lem =
      let after = header_bytes hdr ++ (code ++ extra) in
      let seen : length (take n after) ≡ n =
        omega (arith, length-take n after, length-grown, within) in
      let pre_size : length (take (6 + section (length name)) after) ≡ 6 + section (length name) =
        omega (arith, length-take (6 + section (length name)) after, length-grown, consistent) in
      let moved_size = length-append (take (6 + section (length name)) after) code in
      let pieces_size : length (flatten (header_pieces (plan_of hdr (length name)) name))
          ≡ length (take (6 + section (length name)) after) =
        ap length (flatten-header_pieces hdr name) ∙ (length-tag hdr name ∙ sym pre_size) in
      rw
        (
          resize_lem,
          get_cursor_lem os after n sized_after (omega (arith, length-grown)),
          move_code_lem hdr (plan_of hdr (length name)) (header_bytes hdr) code extra refl
              consistent (omega (arith, length_fits)) grown,
          seen,
          write_pieces (header_pieces (plan_of hdr (length name)) name)
              (take (6 + section (length name)) after) code n pieces_size
              (omega (arith, pre_size, enough))
              (omega (arith, moved_size, pre_size, within, consistent))
              (omega (arith, moved_size, pre_size, length_fits, consistent)),
        )
        (ap (λ (b : Bytes). done (b ++ code)) (flatten-header_pieces hdr name))

  after_read : Header → Outcome Bytes
  after_read found = make_plan found (length name) >>= λ plan.
      rewrite_with os found plan name (header_bytes hdr ++ code)

  after_read_lem : after_read (header_of (header_bytes hdr)) ≡ done (tag hdr name ++ code)
  unfolding after_read plan_of
  after_read_lem =
      let small : hdr.flags < 2 ^ 16 = omega (arith, plain) in
      ap after_read
        (header_of-bytes hdr (omega (arith, length_fits)) small (omega (arith, offset_fits)))
      ∙ rw (make_plan_lem hdr (length name) plain length_fits offset_fits) rewrite_with_lem

  -- A formula without an item name, whose header tells its length, gets the name: behind the new
  -- header stand the name's size, the name, a zero byte where these are together odd, and the code
  -- as it was. The lengths have to fit 16 bits, the reallocation has to succeed, and the SDK has to
  -- answer, for the memory after it, a size that has room for all but the code.
  pub add_item_name_lem :
      add_item_name os name (header_bytes hdr ++ code) ≡ done (tag hdr name ++ code)
  unfolding add_item_name after_read
  add_item_name_lem =
      rw (first_cursor, header_found hdr code (omega (arith, length_fits, consistent)))
        after_read_lem

-- A formula whose header has flags already is refused with a runtime_error, whatever the name.
pub add_item_name-tagged :
    (os : Native) (hdr : Header) (name code : Bytes) (n : ℕ)
    → hdr.flags ≢ 0
    → hdr.length < 2 ^ 16
    → hdr.flags < 2 ^ 16
    → hdr.offset < 2 ^ 16
    → os.get_size (header_bytes hdr ++ code) ≡ answer_of n
    → 6 ≤ n
    → n ≤ 6 + length code
    → n < 2 ^ 16
    → add_item_name os name (header_bytes hdr ++ code) ≡ threw runtime_error
unfolding add_item_name
add_item_name-tagged os hdr name code n flagged a b c sized low high small =
    let seen = get_cursor_lem os (header_bytes hdr ++ code) n sized (omega (arith, high)) in
    let split = take-append_past (header_bytes hdr) code n (n - 6) (omega (arith, low)) in
    let after : Header → Outcome Bytes = λ h. make_plan h (length name) >>= λ plan.
    rewrite_with os h plan name (header_bytes hdr ++ code) in
    rw
      (
        seen,
        split,
        header_found hdr (take (n - 6) code) (omega (arith, length-take (n - 6) code, small)),
      )
      (ap after (header_of-bytes hdr a b c) ∙ rw (refused hdr (length name) flagged))
