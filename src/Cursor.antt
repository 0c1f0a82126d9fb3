-- ===== src/Cursor.antt =====
-- include/dmn/detail/cursor.hpp: a position in a chunk of memory, with reads and writes that move it
-- on. The memory is its bytes; size_t arithmetic wraps at 2 ^ 64 and `ensure_bounds` takes its
-- argument as a uint32_t. An access of bytes outside the memory, which C++ leaves undefined, is
-- `fault`. A read of a value of type T is the read of its sizeof(T) bytes; with an ODS type the
-- size is what ods::size gives, which the caller passes.
pub mod Bounds
pub mod Transfer
pub mod Held
pub mod Chains
mod Tests
use dmn_cpp.Base.{
  ℕ, zero, suc, ◌+◌, ◌-◌, ◌*◌, ◌/◌, ◌%◌, ◌^◌, Bool, true, false, List, [], ◌∷◌, ◌++◌, Bytes, ltb,
  leb, if◌then◌else◌, length, take, drop, Error, Result, ok, err, out_of_range,
}

pub data Outcome {ℓ} (A : Type ℓ) : Type ℓ where
  done : A → Outcome A
  threw : Error → Outcome A
  fault : Outcome A

infixl 5 ◌>>=◌ ◌>>◌
abbrev pub ◌>>=◌ {ℓ κ} : {A : Type ℓ} {B : Type κ} → Outcome A → (A → Outcome B) → Outcome B
done a >>= f = f a
threw e >>= f = threw e
fault >>= f = fault

abbrev pub ◌>>◌ {ℓ} : {B : Type ℓ} → Outcome (Unit {0}) → Outcome B → Outcome B
m >> k = m >>= λ _. k

-- A call that may throw and does not touch the memory.
abbrev pub lift {ℓ} : {A : Type ℓ} → Result A → Outcome A
lift (err e) = threw e
lift (ok a) = done a

pub record Cursor : Type 0 where
  pub buffer : Bytes
  pub offset : ℕ

-- A `uint16_t` in memory, least significant byte first.
abbrev pub u16_bytes : ℕ → Bytes
u16_bytes n = (n % 256) ∷ (n / 256 % 256) ∷ []

abbrev pub u16_of : Bytes → ℕ
u16_of (a ∷ b ∷ []) = a + b * 256
u16_of _ = 0

-- The `n` bytes from position `p` on, for a pointer that `get_pointer` made.
unfoldable pub bytes_at : ℕ → ℕ → Bytes → Outcome Bytes
bytes_at p n buffer = if leb (p + n) (length buffer) then done (take n (drop p buffer)) else fault

-- The bytes from position `p` on replaced.
unfoldable pub store_at : ℕ → Bytes → Bytes → Outcome Bytes
store_at p bytes buffer =
    if leb (p + length bytes) (length buffer)
    then done (take p buffer ++ (bytes ++ drop (p + length bytes) buffer))
    else fault

unfoldable pub make : Bytes → Cursor
make bytes = record { buffer = bytes; offset = 0 }

unfoldable pub reset : Cursor → Cursor
reset c = record c { offset = 0 }

unfoldable pub advance_offset : ℕ → Cursor → Cursor
advance_offset amount c = record c { offset = (c.offset + amount) % 2 ^ 64 }

unfoldable pub set_offset : ℕ → Cursor → Cursor
set_offset position c = record c { offset = position }

unfoldable pub size : Cursor → ℕ
size c = length c.buffer

unfoldable pub remaining : Cursor → ℕ
unfolding size
remaining c = (size c + 2 ^ 64 - c.offset) % 2 ^ 64

unfoldable pub ensure_bounds : ℕ → Cursor → Outcome (Unit {0})
ensure_bounds size_to_read c =
    if ltb (length c.buffer) ((c.offset + size_to_read % 2 ^ 32) % 2 ^ 64)
    then threw out_of_range
    else done tt

unfoldable pub write : Bytes → Cursor → Outcome Cursor
unfolding ensure_bounds store_at
write bytes c = do
  ensure_bounds (length bytes) c
  buffer ← store_at c.offset bytes c.buffer
  done (record { buffer = buffer; offset = (c.offset + length bytes) % 2 ^ 64 })

unfoldable pub read : ℕ → Cursor → Outcome (Bytes × Cursor)
unfolding ensure_bounds bytes_at
read n c = do
  ensure_bounds n c
  bytes ← bytes_at c.offset n c.buffer
  done (bytes, record c { offset = (c.offset + n) % 2 ^ 64 })

unfoldable pub read_u16 : Cursor → Outcome (ℕ × Cursor)
unfolding read
read_u16 c = do found ← read 2 c; done (u16_of (found.0), found.1)

-- A run of `uint16_t` reads: the lengths in front of the items of a table or a text list.
unfoldable pub read_lengths : ℕ → Cursor → Outcome (List ℕ × Cursor)
unfolding read_u16
read_lengths zero c = done ([], c)
read_lengths (suc n) c = do
  one ← read_u16 c
  rest ← read_lengths n (one.1)
  done (one.0 ∷ rest.0, rest.1)

-- A chain of writes, each at the place where the one before it ended.
unfoldable pub write_all : List Bytes → Cursor → Outcome Cursor
unfolding write
write_all [] c = done c
write_all (b ∷ bs) c = do next ← write b c; write_all bs next
