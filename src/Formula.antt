-- ===== src/Formula.antt =====
-- src/formula.cpp: the memory of a compiled formula, which is its bytes: a header of six bytes and
-- the code. The SDK's calls are parameters. Its constructors and `decompile` stand in Pools.
pub mod ItemName
mod Tests
use dmn_cpp.Base.{
  ℕ, ◌+◌, ◌-◌, ◌%◌, ◌^◌, Bool, true, false, not, List, [], ◌∷◌, ◌++◌, Bytes, length, take, drop,
  leb, ◌==◌, if◌then◌else◌, Result, ok, err, runtime_error, guard,
}
use dmn_cpp.Status.{Answer, throw_if_error}
use dmn_cpp.Cast.{checked_cast}
use dmn_cpp.Cursor.{
  Outcome, done, threw, fault, ◌>>=◌, ◌>>◌, lift, Cursor, make, read, write_all, bytes_at, store_at,
  u16_bytes, u16_of,
}

-- `NSFFormulaGetSize` on the memory, and the calls that change it, each with its status and the
-- memory after it: `OSMemRealloc` to a size, `NSFFormulaSummaryItem` with an item's name and
-- `NSFFormulaMerge` with the memory of another formula.
pub record Native : Type 0 where
  pub get_size : Bytes → Answer
  pub realloc : ℕ → Bytes → ℕ × Bytes
  pub summary_item : Bytes → Bytes → ℕ × Bytes
  pub merge_call : Bytes → Bytes → ℕ × Bytes

pub record Header : Type 0 where
  pub length : ℕ
  pub flags : ℕ
  pub offset : ℕ

unfoldable pub header_bytes : Header → Bytes
header_bytes hdr = u16_bytes hdr.length ++ (u16_bytes hdr.flags ++ u16_bytes hdr.offset)

unfoldable pub header_of : Bytes → Header
header_of bytes = record {
  length = u16_of (take 2 bytes);
  flags = u16_of (take 2 (drop 2 bytes));
  offset = u16_of (take 2 (drop 4 bytes));
}

-- The sizes that `add_item_name` computes before it changes anything.
pub record Plan : Type 0 where
  pub name_size : ℕ
  pub padding : ℕ
  pub padded_size : ℕ
  pub new_length : ℕ
  pub new_offset : ℕ

unfoldable pub make_plan : Header → ℕ → Outcome Plan
unfolding checked_cast
make_plan hdr n = do
  lift (guard (hdr.flags == 0) runtime_error)
  name_size ← lift (checked_cast 16 n)
  let section_size = 2 + name_size
  let padding = section_size % 2
  padded_size ← lift (checked_cast 16 (section_size + padding))
  new_length ← lift (checked_cast 16 (hdr.length + padded_size))
  new_offset ← lift (checked_cast 16 (hdr.offset + padded_size))
  done (record {
    name_size = name_size;
    padding = padding;
    padded_size = padded_size;
    new_length = new_length;
    new_offset = new_offset;
  })

-- The `memmove`, by pointers that are not checked; the count is a size_t, which wraps where the
-- length in the header is less than the header's own.
unfoldable pub move_code : Header → Plan → Bytes → Outcome Bytes
unfolding bytes_at store_at
move_code hdr plan memory = do
  code ← bytes_at 6 ((hdr.length + 2 ^ 64 - 6) % 2 ^ 64) memory
  store_at (6 + plan.padded_size) code memory

unfoldable pub header_pieces : Plan → Bytes → List Bytes
unfolding header_bytes
header_pieces plan name =
    header_bytes (record { length = plan.new_length; flags = 2; offset = plan.new_offset })
    ∷ u16_bytes plan.name_size
    ∷ name
    ∷ (if plan.padding == 0 then [] else (0 ∷ []) ∷ [])

-- A call's status, and the memory where it succeeded.
unfoldable pub accept : ℕ × Bytes → Outcome Bytes
unfolding throw_if_error
accept (status, memory) = lift (throw_if_error status) >> done memory

module _ (os : Native) where
  unfoldable pub size : Bool → Bytes → Outcome ℕ
  unfolding throw_if_error
  size even memory =
      let answer = os.get_size memory in
      lift (throw_if_error answer.status)
      >> done (answer.handle + (if even then answer.handle % 2 else 0))

  -- `get_cursor`: a cursor over as many bytes of the memory as the size says.
  unfoldable pub get_cursor : Bytes → Outcome Cursor
  unfolding size bytes_at make
  get_cursor memory = do n ← size false memory; visible ← bytes_at 0 n memory; done (make visible)

  unfoldable pub resize : ℕ → Bytes → Outcome Bytes
  unfolding accept
  resize n memory = accept (os.realloc n memory)

  unfoldable pub merge : Bytes → Bytes → Outcome Bytes
  unfolding accept
  merge other memory = accept (os.merge_call other memory)

  unfoldable pub add_summary : Bytes → Bytes → Outcome Bytes
  unfolding accept
  add_summary item_name memory = accept (os.summary_item item_name memory)

  -- `add_item_name` from the resizing on.
  unfoldable pub rewrite_with : Header → Plan → Bytes → Bytes → Outcome Bytes
  unfolding get_cursor resize move_code header_pieces write_all make
  rewrite_with hdr plan name memory = do
    resized ← resize plan.new_length memory
    cursor ← get_cursor resized
    moved ← move_code hdr plan resized
    written ← write_all (header_pieces plan name) (make (take (length cursor.buffer) moved))
    done (written.buffer ++ drop (length cursor.buffer) moved)

  unfoldable pub add_item_name : Bytes → Bytes → Outcome Bytes
  unfolding get_cursor read header_of make_plan rewrite_with
  add_item_name name memory = do
    found ← get_cursor memory
    raw ← read 6 found
    let hdr = header_of (raw.0)
    plan ← make_plan hdr (length name)
    rewrite_with hdr plan name memory
