-- ===== src/Design/Collation.antt =====
-- src/design/view.cpp: `build_collation`, which writes the descriptors of the sorted columns and then
-- their names. The images of the structures and the allocation are parameters.
pub mod Located
use dmn_cpp.Base.{
  ℕ, ◌+◌, ◌%◌, ◌^◌, ◌*◌, Bool, true, false, List, [], ◌∷◌, ◌++◌, Bytes, length, if◌then◌else◌,
}
use dmn_cpp.Cast.{checked_cast}
use dmn_cpp.Cursor.{Outcome, done, threw, fault, ◌>>=◌, lift, Cursor, write, u16_bytes}
use dmn_cpp.Kind.{collation, to_underlying}
use dmn_cpp.Design.Column.{Column, Sorting, none, ascending, descending, get_sorting, is_descending}
use dmn_cpp.Design.View.{View}
use dmn_cpp.Design.Format.{Alloc, new_buffer}

-- The image of a collation, from its size and number of items; and that of a descriptor, from
-- whether it is descending and whether it is a category, and the place and length of its name.
pub record Ods : Type 0 where
  pub collation_image : ℕ → ℕ → Bytes
  pub descriptor : Bool → Bool → ℕ → ℕ → Bytes
  pub collation_size : ℕ
  pub descriptor_size : ℕ

unfoldable pub sorted_columns : List Column → List Column
sorted_columns [] = []
sorted_columns (col ∷ cols) =
    let rest = sorted_columns cols in if col.flags1.sort then col ∷ rest else rest

unfoldable pub item_names_size : List Column → ℕ
item_names_size [] = 0
item_names_size (col ∷ cols) = length col.item_name + item_names_size cols

-- The names, one after the other.
unfoldable pub write_names : List Column → Cursor → Outcome Cursor
unfolding write
write_names [] c = done c
write_names (col ∷ cols) c = do next ← write col.item_name c; write_names cols next

module _ (ods : Ods) where
  -- The descriptors, with the offset of the next name, a uint16_t.
  unfoldable pub write_descriptors : ℕ → List Column → Cursor → Outcome Cursor
  unfolding checked_cast write get_sorting is_descending
  write_descriptors name_offset [] c = done c
  write_descriptors name_offset (col ∷ cols) c = do
    let sorting = get_sorting col
    name_length ← lift (checked_cast 16 (length col.item_name))
    next ← write (ods.descriptor (is_descending (sorting.0)) (sorting.1) name_offset name_length) c
    write_descriptors ((name_offset + name_length) % 2 ^ 16) cols next

  unfoldable pub build_collation : Alloc → View → Outcome Bytes
  unfolding sorted_columns item_names_size checked_cast new_buffer write write_descriptors
      write_names to_underlying
  build_collation alloc view = do
    let sorted = sorted_columns view.columns
    let descriptors_size = ods.descriptor_size * length sorted
    buffer_size ←
        lift (checked_cast 16 (ods.collation_size + descriptors_size + item_names_size sorted))
    items ← lift (checked_cast 16 (length sorted))
    buffer ← new_buffer alloc (2 + buffer_size)
    typed ← write (u16_bytes (to_underlying collation)) buffer
    headed ← write (ods.collation_image buffer_size items) typed
    described ← write_descriptors 0 sorted headed
    named ← write_names sorted described
    done named.buffer
