-- ===== src/Value.antt =====
-- src/value.cpp, include/dmn/value.hpp, src/detail/object_value.cpp and src/detail/note_value.cpp: the
-- value of an item, which is the two bytes of its type and its data, read and converted. The value's
-- memory is a list of bytes. A double and a time are their eight bytes; how they are printed, and
-- the constructors of lists and formulas, are parameters.
pub mod Convert
pub mod TextList
mod Tests
use dmn_cpp.Base.{
  ℕ, ◌+◌, ◌-◌, Bool, true, false, ◌&&◌, List, [], ◌∷◌, ◌++◌, Option, none, some, Bytes, codes,
  length, take, drop, ltb, leb, ◌==◌, if◌then◌else◌, is_empty, Error, conversion_error,
}
use dmn_cpp.Kind.{Kind, text, text_list, number, time, formula, invalid_or_unknown, to_underlying}
use dmn_cpp.Lmbcs.{Translate, to_string, from_string}
use dmn_cpp.Cursor.{
  Outcome, done, threw, fault, ◌>>=◌, Cursor, make, set_offset, advance_offset, size, bytes_at,
  read, read_u16, read_lengths, u16_bytes,
}

unfoldable pub empty : Bytes → Bool
empty memory = leb (length memory) 2

unfoldable pub get_type : Bytes → Outcome ℕ
unfolding read_u16 make to_underlying
get_type memory =
    if ltb (length memory) 2
    then done (to_underlying invalid_or_unknown)
    else do typ ← read_u16 (make memory); done (typ.0)

-- `data_pair`: the type, and the cursor behind it.
unfoldable pub data_pair : Bytes → Outcome (ℕ × Cursor)
unfolding read_u16 make
data_pair memory = read_u16 (make memory)

module _ (os : Translate) where
  -- The entries of a text list, each with a semicolon behind it. Their lengths are not checked.
  unfoldable pub text_entries : List ℕ → Cursor → Outcome Bytes
  text_entries [] c = done []
  text_entries (n ∷ ns) c = do
    out ← bytes_at c.offset n c.buffer
    rest ← text_entries ns (advance_offset n c)
    done (to_string os out ++ (b';' ∷ rest))

  unfoldable pub read_text_list : Cursor → Outcome Bytes
  read_text_list c = do
    entries ← read_u16 c
    lengths ← read_lengths (entries.0) (entries.1)
    output ← text_entries (lengths.0) (lengths.1)
    done (take (length output - 1) output)

  module _ (to_chars rfc3339 : Bytes → Option Bytes) where
    -- `as_string` from the type on.
    unfoldable pub typed_string : ℕ → ℕ → Cursor → Outcome (Option Bytes)
    unfolding to_underlying
    typed_string typ data_size obj =
        if typ == to_underlying text
        then (bytes_at obj.offset data_size obj.buffer >>= λ value.
            done (some (to_string os value)))
        else if (typ == to_underlying number) && (data_size == 8)
        then (read 8 obj >>= λ num. done (to_chars (num.0)))
        else if (typ == to_underlying time) && (data_size == 8)
        then (read 8 obj >>= λ td. done (rfc3339 (td.0)))
        else if (typ == to_underlying text_list) && leb 2 data_size
        then (read_text_list obj >>= λ output. done (some output))
        else done none

    unfoldable pub as_string : Bytes → Outcome (Option Bytes)
    as_string memory =
        if ltb (length memory) 2
        then done none
        else do pair ← data_pair memory; typed_string (pair.0) (length memory - 2) (pair.1)

-- `object_value<T>::is`: whether the cursor stands before a value of a type, with the data's size
-- where the type has one. The cursor moves on, unless the size is wrong.
unfoldable pub is_type : Kind → Cursor → Outcome (Bool × Cursor)
unfolding to_underlying
is_type kind cs = do typ ← read_u16 cs; done (typ.0 == to_underlying kind, typ.1)

unfoldable pub is_sized : ℕ → Kind → Cursor → Outcome (Bool × Cursor)
is_sized n kind cs = if size cs == n + 2 then is_type kind cs else done (false, cs)

-- What `convert` answers where `is` failed.
abbrev pub convert_if : {A : Type 0} → Bool × Cursor → (Cursor → Outcome A) → Outcome (Option A)
convert_if (false, cs) k = done none
convert_if (true, cs) k = do a ← k cs; done (some a)

module _ (os : Translate) where
  unfoldable pub convert_string : Cursor → Outcome (Option Bytes)
  convert_string cs = do
    found ← is_type text cs
    convert_if found λ behind. do
      value ← bytes_at behind.offset (size behind - 2) behind.buffer
      done (to_string os value)

unfoldable pub convert_eight : Kind → Cursor → Outcome (Option Bytes)
convert_eight kind cs = do
  found ← is_sized 8 kind cs
  convert_if found λ behind. do bytes ← read 8 behind; done (bytes.0)

unfoldable pub convert_double : Cursor → Outcome (Option Bytes)
convert_double cs = convert_eight number cs

unfoldable pub convert_time : Cursor → Outcome (Option Bytes)
convert_time cs = convert_eight time cs

unfoldable pub convert_formula :
    {Formula : Type 0} → (Bytes → Outcome Formula) → Cursor → Outcome (Option Formula)
convert_formula make_formula cs = do
  found ← is_type formula cs
  convert_if found λ behind. do
    bytes ← bytes_at behind.offset (size behind - 2) behind.buffer
    make_formula bytes

abbrev pub value_or_empty : Option Bytes → Bytes
value_or_empty none = []
value_or_empty (some s) = s

-- A text is a list of one entry; `single` makes that list and `duplicate` copies one from memory.
unfoldable pub convert_list :
    {L : Type 0}
    → Translate
    → (Bytes → Outcome L)
    → (Bytes → Outcome L)
    → Cursor
    → Outcome (Option L)
unfolding read_u16 to_underlying set_offset convert_string bytes_at size
convert_list os single duplicate cs = do
  typ ← read_u16 cs
  if typ.0 == to_underlying text
      then (convert_string os (set_offset 0 (typ.1)) >>= λ value.
          single (value_or_empty value) >>= λ list. done (some list))
      else if typ.0 == to_underlying text_list
      then (bytes_at 0 (size cs) cs.buffer >>= λ bytes.
          duplicate bytes >>= λ list. done (some list))
      else done none

-- `try_as`: an exception means that there is no value.
unfoldable pub caught : {A : Type 0} → Outcome (Option A) → Outcome (Option A)
caught (done o) = done o
caught (threw e) = done none
caught fault = fault

unfoldable pub try_as : {A : Type 0} → (Cursor → Outcome (Option A)) → Bytes → Outcome (Option A)
unfolding caught make
try_as convert memory = if ltb (length memory) 2 then done none else caught (convert (make memory))

unfoldable pub as_type : {A : Type 0} → (Cursor → Outcome (Option A)) → Bytes → Outcome A
as_type convert memory = do
  result ← try_as convert memory
  elim result [ none ↦ threw conversion_error | some a ↦ done a ]

-- `note_value<T>::apply`: the type and the data that the setter gets.
module _ (os : Translate) where
  unfoldable pub apply_string : Bytes → Kind × Bytes
  unfolding from_string
  apply_string value = (text, from_string os value)

unfoldable pub apply_double : Bytes → Kind × Bytes
apply_double value = (number, value)

unfoldable pub apply_time : Bytes → Kind × Bytes
apply_time value = (time, value)

-- A list goes without the type in front of its memory.
unfoldable pub apply_list : Bytes → Kind × Bytes
apply_list memory = (text_list, drop 2 memory)

unfoldable pub apply_formula : Bytes → Kind × Bytes
apply_formula memory = (formula, memory)

-- The memory of an item that was set: its type and its data.
unfoldable pub item_memory : Kind × Bytes → Bytes
unfolding to_underlying
item_memory (kind, bytes) = u16_bytes (to_underlying kind) ++ bytes
