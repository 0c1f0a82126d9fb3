-- ===== src/Cursor/Bounds.antt =====
-- Which accesses succeed, which throw, and where the check lets an access out of the memory.
use dmn_cpp.Base.{
  ℕ, ◌+◌, ◌%◌, ◌^◌, ◌≤◌, ◌<◌, ◌≡◌, ◌++◌, Bytes, length, take, drop, out_of_range, arith,
}
use dmn_cpp.Cursor.{Cursor, done, threw, fault, read, write, remaining}

-- A read of less than 4 GiB, from a position where the sum does not wrap: inside the memory it
-- gives the bytes at the offset and moves the offset on, otherwise it throws out_of_range. It
-- never leaves the memory.
pub read_lem :
    (n : ℕ) (c : Cursor)
    → n < 2 ^ 32
    → c.offset + n < 2 ^ 64
    → (c.offset + n ≤ length c.buffer
        → read n c ≡ done (take n (drop c.offset c.buffer), record c { offset = c.offset + n }))
      × (length c.buffer < c.offset + n → read n c ≡ threw out_of_range)
unfolding read
read_lem n c small fits = (λ inside. ground arith, λ outside. ground arith)

-- A write is checked like a read: inside the memory it replaces exactly the bytes at the offset,
-- and otherwise it throws and nothing is written.
pub write_lem :
    (bytes : Bytes) (c : Cursor)
    → length bytes < 2 ^ 32
    → c.offset + length bytes < 2 ^ 64
    → (c.offset + length bytes ≤ length c.buffer
        → write bytes c
          ≡ done (record {
            buffer = take c.offset c.buffer ++ (bytes ++ drop (c.offset + length bytes) c.buffer);
            offset = c.offset + length bytes;
          }))
      × (length c.buffer < c.offset + length bytes → write bytes c ≡ threw out_of_range)
unfolding write
write_lem bytes c small fits = (λ inside. ground arith, λ outside. ground arith)

-- The check sees only the low 32 bits of the size: where these fit into what is left and the whole
-- size does not, the read passes the check and leaves the memory.
pub read_truncated :
    (n : ℕ) (c : Cursor)
    → c.offset + n % 2 ^ 32 ≤ length c.buffer
    → length c.buffer < c.offset + n
    → length c.buffer < 2 ^ 64
    → read n c ≡ fault
unfolding read
read_truncated n c fits beyond room = ground arith

-- Past the end of the memory `remaining` is no small number but one that has wrapped around.
remaining_past :
    (c : Cursor)
    → length c.buffer < c.offset
    → c.offset < 2 ^ 64
    → remaining c + c.offset ≡ length c.buffer + 2 ^ 64
unfolding remaining
remaining_past c past fits = ground arith
