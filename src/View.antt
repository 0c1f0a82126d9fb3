-- ===== src/View.antt =====
-- src/view.cpp: walking the entries of a view. The native calls, the memory layout of the SDK's
-- structures, the conversion of the key and `database::get_note` are parameters; positions are
-- of any type. A walk gives the notes that the callback got, with their columns, and how it ended:
-- an exception comes after the callbacks that it follows. A column is the bytes of its value. The
-- view's handle and the memory for the copies of items are taken to be there.
pub mod Walk
pub mod Rows
pub mod Opened
pub mod Samples
mod Tests
use dmn_cpp.Base.{
  ℕ, zero, suc, ◌+◌, ◌-◌, ◌%◌, ◌^◌, Bool, true, false, not, ◌&&◌, ◌||◌, List, [], ◌∷◌, Option, none,
  some, Bytes, leb, ◌==◌, ◌++◌, if◌then◌else◌, is_empty, Result, ok, err, invalid_handle,
}
use dmn_cpp.Status.{Codes, is_not_found, throw_if_error}
use dmn_cpp.Cursor.{
  Outcome, done, threw, fault, ◌>>=◌, Cursor, bytes_at, make, read, read_lengths, advance_offset,
  set_offset,
}
use Prim.Native.Nat.{min}

-- The sizes of the SDK's NOTEID and ITEM_VALUE_TABLE in memory, and their fields.
pub record Layout : Type 0 where
  pub note_id_size : ℕ
  pub note_id : Bytes → ℕ
  pub table_size : ℕ
  pub table_length : Bytes → ℕ
  pub table_items : Bytes → ℕ

-- What NIFReadEntries answers; `memory` is what the lock of its handle gives, and none where the handle
-- or its memory is null.
pub record Page (Position : Type 0) : Type 0 where
  pub status : ℕ
  pub memory : Option Bytes
  pub count : ℕ
  pub more : Bool
  pub position : Position

-- What NIFFindByName answers.
pub record Match (Position : Type 0) : Type 0 where
  pub status : ℕ
  pub position : Position
  pub matches : ℕ

pub record QueryOptions : Type 0 where
  pub key : Option Bytes
  pub count : ℕ
  pub offset : ℕ

abbrev pub max_u32 : ℕ
max_u32 = 2 ^ 32 - 1

-- The entries that the first page skips: without a key, one more than asked for.
unfoldable pub first_skip : Option Bytes → ℕ → ℕ
first_skip (some k) offset = offset
first_skip none offset = if offset == max_u32 then offset else offset + 1

-- A result of the other modules as an outcome.
abbrev pub lift {ℓ} : {A : Type ℓ} → Result A → Outcome A
lift (ok a) = done a
lift (err e) = threw e

-- The items themselves, copied without a check of the bounds.
unfoldable pub read_columns : List ℕ → Cursor → Outcome (List Bytes × Cursor)
unfolding bytes_at advance_offset
read_columns [] c = done ([], c)
read_columns (zero ∷ ns) c = read_columns ns c
read_columns (suc n ∷ ns) c = do
  item ← bytes_at c.offset (suc n) c.buffer
  rest ← read_columns ns (advance_offset (suc n) c)
  done (item ∷ rest.0, rest.1)

module _ (layout : Layout) where
  -- One entry: its note id and its columns.
  unfoldable pub read_row : Cursor → Outcome ((ℕ × List Bytes) × Cursor)
  unfolding read read_lengths read_columns set_offset
  read_row c = do
    id ← read layout.note_id_size c
    table ← read layout.table_size (id.1)
    lengths ← read_lengths (layout.table_items (table.0)) (table.1)
    columns ← read_columns (lengths.0) (lengths.1)
    done (
      (layout.note_id (id.0), columns.0),
      set_offset ((id.1.offset + layout.table_length (table.0)) % 2 ^ 64) (columns.1),
    )

  module _ {Note : Type 0} (get_note : ℕ → Result (Option Note)) where
    -- The callbacks in order, and the end.
    abbrev pub Walk : Type 0
    Walk = List (Note × List Bytes) × Outcome (Unit {0})

    -- An entry whose note is gone is passed over.
    unfoldable pub visit : Result (Option Note) → List Bytes → Walk → Walk
    visit (err e) columns rest = ([], threw e)
    visit (ok none) columns rest = rest
    visit (ok (some note)) columns rest = ((note, columns) ∷ rest.0, rest.1)

    -- A step that may end the walk, and a walk that is over where a test holds.
    abbrev pub attempt : {A : Type 0} → Outcome A → (A → Walk) → Walk
    attempt (done a) k = k a
    attempt (threw e) k = ([], threw e)
    attempt fault k = ([], fault)

    abbrev pub stop_if : Bool → (Unit {0} → Walk) → Walk
    stop_if true k = ([], done tt)
    stop_if false k = k tt

    -- The entries of one page.
    unfoldable pub read_rows : ℕ → Cursor → Walk
    unfolding visit
    read_rows zero c = ([], done tt)
    read_rows (suc n) c =
        attempt (read_row c) λ row. visit (get_note (row.0.0)) (row.0.1) (read_rows n (row.1))

    module _ {Position : Type 0} (read_entries : Position → ℕ → ℕ → Page Position) where
      -- What follows the callbacks of a page: nothing where it ended with an exception.
      unfoldable pub followed_by : Walk → Walk → Walk
      followed_by (calls, threw e) rest = (calls, threw e)
      followed_by (calls, fault) rest = (calls, fault)
      followed_by (calls, done u) rest = (calls ++ rest.0, rest.1)

      -- The locker of a page.
      abbrev pub lock_page : Option Bytes → Outcome Bytes
      lock_page none = threw invalid_handle
      lock_page (some memory) = done memory

      -- The loop over the pages, on fuel: each turn reads one page from a position on.
      unfoldable pub read_pages : ℕ → Position → ℕ → ℕ → Bool → Walk
      unfolding read_rows followed_by throw_if_error make
      read_pages zero position skip remaining more = ([], done tt)
      read_pages (suc f) position skip remaining more = stop_if (not more || (remaining == 0)) λ _.
          let page = read_entries position skip remaining in
          attempt (lift (throw_if_error page.status)) λ _. attempt (lock_page page.memory) λ memory.
            stop_if (page.count == 0) λ _. followed_by (read_rows page.count (make memory)) (
              stop_if (leb remaining page.count)
                λ _. read_pages f page.position 0 (remaining - page.count) page.more)

      -- `iterate_entries`; the fuel is the number of entries that remain, since each page takes
      -- one at least.
      unfoldable pub iterate_entries : Position → QueryOptions → ℕ → Walk
      unfolding read_pages first_skip
      iterate_entries position opts available =
          if leb available opts.offset
          then ([], done tt)
          else read_pages (min opts.count (available - opts.offset)) position
              (first_skip opts.key opts.offset) (min opts.count (available - opts.offset)) true

      module _ (codes : Codes) (start : Position) (find_by_name : Bytes → Match Position)
          (from_utf8 : Bytes → Result Bytes) where
        unfoldable pub iterate_found : QueryOptions → Match Position → Walk
        unfolding iterate_entries is_not_found throw_if_error
        iterate_found opts found = stop_if (is_not_found codes found.status) λ _.
            attempt (lift (throw_if_error found.status))
              λ _. iterate_entries found.position opts found.matches

        unfoldable pub iterate_key : QueryOptions → Bytes → Walk
        unfolding iterate_found
        iterate_key opts key =
            attempt (lift (from_utf8 key)) λ converted. iterate_found opts (find_by_name converted)

        unfoldable pub iterate_from : QueryOptions → Option Bytes → Walk
        unfolding iterate_entries iterate_key
        iterate_from opts none = iterate_entries start opts opts.count
        iterate_from opts (some []) = iterate_entries start opts opts.count
        iterate_from opts (some (c ∷ cs)) = iterate_key opts (c ∷ cs)

        unfoldable pub iterate : QueryOptions → Walk
        unfolding iterate_from
        iterate opts = iterate_from opts opts.key
