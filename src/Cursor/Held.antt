-- ===== src/Cursor/Held.antt =====
-- Reads at a position where the memory holds known bytes.
use dmn_cpp.Base.{
  ℕ, ◌+◌, ◌%◌, ◌^◌, ◌≤◌, ◌<◌, ◌≡◌, ap, sym, ◌∙◌, true, List, [], ◌∷◌, ◌++◌, map, Bytes, leb, arith,
  length, length-append, append_assoc, append-nil, drop, take-append, drop-append, drop-drop,
}
use dmn_cpp.Cursor.{done, Cursor, read, read_lengths, bytes_at, advance_offset, u16_bytes, u16_of}
use dmn_cpp.Cursor.Bounds.{read_lem}

-- The memory holds the bytes from a position on.
unfoldable pub At : Bytes → ℕ → Bytes → Type 0
At memory p bytes =
    (p + length bytes ≤ length memory) × ((post : Bytes) × (drop p memory ≡ bytes ++ post))

abbrev pub at : Bytes → ℕ → Cursor
at memory p = record { buffer = memory; offset = p }

pub At-split :
    (memory : Bytes) (p : ℕ) (xs ys : Bytes)
    → At memory p (xs ++ ys)
    → At memory p xs × At memory (p + length xs) ys
unfolding At
At-split memory p xs ys (room, (post, e)) = (
  (omega (arith, room, length-append xs ys), (ys ++ post, e ∙ append_assoc xs ys post)),
  (
    omega (arith, room, length-append xs ys),
    (
      post,
      sym (drop-drop p (length xs) memory)
          ∙ (ap (drop (length xs)) (e ∙ append_assoc xs ys post) ∙ drop-append xs (ys ++ post)),
    ),
  ),
)

pub read-At :
    (memory : Bytes) (p : ℕ) (bytes : Bytes)
    → length memory < 2 ^ 32
    → At memory p bytes
    → read (length bytes) (at memory p) ≡ done (bytes, at memory (p + length bytes))
unfolding At
read-At memory p bytes small (room, (post, e)) =
    (read_lem (length bytes) (at memory p) (omega (arith, room)) (omega (arith, room))).0 room
    ∙ rw (e, take-append bytes post)

pub bytes_at_lem :
    (memory : Bytes) (p : ℕ) (bytes : Bytes)
    → At memory p bytes
    → bytes_at p (length bytes) memory ≡ done bytes
unfolding At bytes_at
bytes_at_lem memory p bytes (room, (post, e)) =
    let inside : leb (p + length bytes) (length memory) ≡ true = ground arith in
    rw (inside, e, take-append bytes post)

pub advance_at :
    (memory : Bytes) (p : ℕ) (bytes : Bytes)
    → length memory < 2 ^ 32
    → At memory p bytes
    → advance_offset (length bytes) (at memory p) ≡ at memory (p + length bytes)
unfolding At advance_offset
advance_at memory p bytes small (room, (post, e)) =
    let same : (p + length bytes) % 2 ^ 64 ≡ p + length bytes = omega (arith, room, small) in
    ap (at memory) same

-- The lengths of a run of items, as they stand in memory.
unfoldable pub lengths_bytes : List Bytes → Bytes
lengths_bytes [] = []
lengths_bytes (b ∷ bs) = u16_bytes (length b) ++ lengths_bytes bs

unfoldable pub AllShort : List Bytes → Type 0
AllShort [] = Unit {0}
AllShort (b ∷ bs) = (length b < 2 ^ 16) × AllShort bs

pub u16_of-bytes : (n : ℕ) → n < 2 ^ 16 → u16_of (u16_bytes n) ≡ n
u16_of-bytes n small = omega arith

pub lengths_at :
    (memory : Bytes) (p : ℕ) (bs : List Bytes)
    → length memory < 2 ^ 32
    → AllShort bs
    → At memory p (lengths_bytes bs)
    → read_lengths (length bs) (at memory p)
      ≡ done (map length bs, at memory (p + length (lengths_bytes bs)))
unfolding read_lengths lengths_bytes AllShort
lengths_at memory p [] small short a = ap (λ k. done ([], at memory k)) (omega arith)
lengths_at memory p (b ∷ bs) small (s, short) a =
    let (first, rest) = At-split memory p (u16_bytes (length b)) (lengths_bytes bs) a in
    let e : p + 2 + length (lengths_bytes bs)
        ≡ p + length (u16_bytes (length b) ++ lengths_bytes bs) =
      omega arith in
    rw
      (
        read-At memory p (u16_bytes (length b)) small first,
        lengths_at memory (p + 2) bs small short rest,
        u16_of-bytes (length b) s,
      )
      (ap (λ k. done (length b ∷ map length bs, at memory k)) e)

pub At-all : (memory : Bytes) → At memory 0 memory
unfolding At
At-all memory = (omega arith, ([], sym (append-nil memory)))
