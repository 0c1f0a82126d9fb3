-- ===== src/Design/Collation/Located.antt =====
-- The collation's buffer is filled exactly, and its descriptors find the names.
use dmn_cpp.Base.{
  if◌then◌else◌, ℕ, ◌+◌, ◌*◌, ◌%◌, ◌^◌, ◌<◌, ◌≡◌, ◌∙◌, ap, sym, subst, refl, Bool, true, false, ◌⊎◌,
  inl, inr, Bool-cases, List, [], ◌∷◌, ◌++◌, append_assoc, append-nil, Bytes, length, take, drop,
  length-append, take-append, drop-append, arith, ok,
}
use dmn_cpp.Cast.{checked_cast}
use dmn_cpp.Cursor.{Outcome, done, ◌>>=◌, Cursor, make, write, write_all, u16_bytes}
use dmn_cpp.Cursor.Transfer.{flatten, write_all-exact}
use dmn_cpp.Cursor.Chains.{>>=-cong, write_all-cons, write_all-append_then}
use dmn_cpp.Kind.{collation, to_underlying}
use dmn_cpp.Design.Column.{Column, get_sorting, is_descending}
use dmn_cpp.Design.View.{View}
use dmn_cpp.Design.Format.{Alloc}
use dmn_cpp.Design.Format.Built.{Allocates, new_buffer_lem, flatten-append, length-flatten_append}
use dmn_cpp.Design.Collation.{
  Ods, sorted_columns, item_names_size, write_names, write_descriptors, build_collation,
}

pub record Images (ods : Ods) : Type 0 where
  pub head : (size items : ℕ) → length (ods.collation_image size items) ≡ ods.collation_size
  pub descriptor :
      (desc cat : Bool) (offset size : ℕ)
      → length (ods.descriptor desc cat offset size) ≡ ods.descriptor_size

unfoldable pub names : List Column → List Bytes
names [] = []
names (col ∷ cols) = col.item_name ∷ names cols

-- The descriptors of the columns whose names begin at an offset.
unfoldable pub descriptors : Ods → ℕ → List Column → List Bytes
descriptors ods offset [] = []
descriptors ods offset (col ∷ cols) =
    ods.descriptor (is_descending (get_sorting col).0) (get_sorting col).1 offset
      (length col.item_name)
    ∷ descriptors ods (offset + length col.item_name) cols

-- The columns of a list that are sorted, in its order.
abbrev pub AreSorted : List Column → List Column → Type 0
AreSorted [] sorted = sorted ≡ []
AreSorted (col ∷ cols) sorted =
    ((rest : List Column) × (col.flags1.sort ≡ true) × (sorted ≡ col ∷ rest) × AreSorted cols rest)
    ⊎ ((col.flags1.sort ≡ false) × AreSorted cols sorted)

if_true : (b : Bool) (a b' : List Column) → b ≡ true → (if b then a else b') ≡ a
if_true b a b' e = rw e refl

if_false : (b : Bool) (a b' : List Column) → b ≡ false → (if b then a else b') ≡ b'
if_false b a b' e = rw e refl

sorted_columns_unique :
    (cols sorted : List Column) → AreSorted cols sorted → sorted_columns cols ≡ sorted
unfolding sorted_columns
sorted_columns_unique [] sorted e = sym e
sorted_columns_unique (col ∷ cols) sorted (inl (rest, sorts, split, are)) =
    if_true col.flags1.sort (col ∷ sorted_columns cols) (sorted_columns cols) sorts
    ∙ ap (λ l. col ∷ l) (sorted_columns_unique cols rest are)
    ∙ sym split
sorted_columns_unique (col ∷ cols) sorted (inr (unsorted, are)) =
    if_false col.flags1.sort (col ∷ sorted_columns cols) (sorted_columns cols) unsorted
    ∙ sorted_columns_unique cols sorted are

pub sorted_columns-AreSorted : (cols : List Column) → AreSorted cols (sorted_columns cols)
unfolding sorted_columns
sorted_columns-AreSorted [] = refl
sorted_columns-AreSorted (col ∷ cols) = elim (Bool-cases col.flags1.sort) [
  | inl sorts ↦ inl (
    sorted_columns cols,
    sorts,
    if_true col.flags1.sort (col ∷ sorted_columns cols) (sorted_columns cols) sorts,
    sorted_columns-AreSorted cols,
  )
  | inr unsorted ↦ inr (
    unsorted,
    subst (AreSorted cols)
        (sym (if_false col.flags1.sort (col ∷ sorted_columns cols) (sorted_columns cols) unsorted))
        (sorted_columns-AreSorted cols),
  )
]

-- Each column's name stands where its descriptor says.
unfoldable pub AllLocated : Bytes → ℕ → List Column → Type 0
AllLocated area offset [] = Unit {0}
AllLocated area offset (col ∷ cols) =
    (take (length col.item_name) (drop offset area) ≡ col.item_name)
    × AllLocated area (offset + length col.item_name) cols

pub checked_cast_lem : (n : ℕ) → n < 2 ^ 16 → checked_cast 16 n ≡ ok n
unfolding checked_cast
checked_cast_lem n small = ground arith

located_after :
    (area : Bytes) (cols : List Column) (pre post : Bytes)
    → area ≡ pre ++ (flatten (names cols) ++ post)
    → AllLocated area (length pre) cols
unfolding AllLocated flatten names
located_after area [] pre post e = tt
located_after area (col ∷ cols) pre post e =
    let rest = flatten (names cols) ++ post in
    let split : area ≡ pre ++ (col.item_name ++ rest) =
      e ∙ ap (λ (b : Bytes). pre ++ b) (append_assoc col.item_name (flatten (names cols)) post) in
    let later =
      located_after area cols (pre ++ col.item_name) post
        (split ∙ sym (append_assoc pre col.item_name rest)) in
    (
      ap (λ (b : Bytes). take (length col.item_name) (drop (length pre) b)) split
          ∙ rw (drop-append pre (col.item_name ++ rest), take-append col.item_name rest),
      rw (length-append pre col.item_name) at later,
    )

write_descriptors_lem :
    (ods : Ods) (cols : List Column) (offset : ℕ) (c : Cursor)
    → offset + item_names_size cols < 2 ^ 16
    → write_descriptors ods offset cols c ≡ write_all (descriptors ods offset cols) c
unfolding write_descriptors write_all descriptors item_names_size
write_descriptors_lem ods [] offset c small = refl
write_descriptors_lem ods (col ∷ cols) offset c small =
    let wrap : (offset + length col.item_name) % 2 ^ 16 ≡ offset + length col.item_name =
      omega (arith, small) in
    rw (checked_cast_lem (length col.item_name) (omega (arith, small)), wrap)
      (>>=-cong
        (write
          (ods.descriptor (is_descending (get_sorting col).0) (get_sorting col).1 offset
            (length col.item_name))
          c)
        (λ next.
          write_descriptors_lem ods cols (offset + length col.item_name) next
            (omega (arith, small))))

write_names_lem : (cols : List Column) (c : Cursor) → write_names cols c ≡ write_all (names cols) c
unfolding write_names write_all names
write_names_lem [] c = refl
write_names_lem (col ∷ cols) c =
    >>=-cong (write col.item_name c) (λ next. write_names_lem cols next)

length-descriptors :
    (ods : Ods)
    → Images ods
    → (cols : List Column) (offset : ℕ)
    → length (flatten (descriptors ods offset cols)) ≡ ods.descriptor_size * length cols
unfolding flatten descriptors
length-descriptors ods images [] offset = omega arith
length-descriptors ods images (col ∷ cols) offset =
    let one =
      length-append
        (ods.descriptor (is_descending (get_sorting col).0) (get_sorting col).1 offset
          (length col.item_name))
        (flatten (descriptors ods (offset + length col.item_name) cols)) in
    grind (
      arith,
      one,
      images.descriptor (is_descending (get_sorting col).0) (get_sorting col).1 offset
          (length col.item_name),
      length-descriptors ods images cols (offset + length col.item_name),
    )

length-names : (cols : List Column) → length (flatten (names cols)) ≡ item_names_size cols
unfolding flatten names item_names_size
length-names [] = refl
length-names (col ∷ cols) =
    omega (arith, length-names cols, length-append col.item_name (flatten (names cols)))

module _ (ods : Ods) (images : Images ods) (alloc : Alloc) (allocates : Allocates alloc) where
  abbrev size_of : List Column → ℕ
  size_of sorted = ods.collation_size + ods.descriptor_size * length sorted + item_names_size sorted

  abbrev pieces : List Column → List Bytes
  pieces sorted =
      u16_bytes (to_underlying collation)
      ∷ ods.collation_image (size_of sorted) (length sorted)
      ∷ (descriptors ods 0 sorted ++ names sorted)

  writes_lem :
      (sorted : List Column) (buffer : Cursor)
      → item_names_size sorted < 2 ^ 16
      → (write (u16_bytes (to_underlying collation)) buffer >>= λ typed.
          write (ods.collation_image (size_of sorted) (length sorted)) typed >>= λ headed.
          write_descriptors ods 0 sorted headed >>= λ described.
          write_names sorted described >>= λ named. done named.buffer)
        ≡ (write_all (pieces sorted) buffer >>= λ named. done named.buffer)
  writes_lem sorted buffer small =
      let finish : Cursor → Outcome Bytes = λ named. done named.buffer in
      sym (
        write_all-cons (u16_bytes (to_underlying collation))
          (ods.collation_image (size_of sorted) (length sorted)
            ∷ (descriptors ods 0 sorted ++ names sorted))
          buffer finish
        ∙ >>=-cong (write (u16_bytes (to_underlying collation)) buffer) (λ typed.
          write_all-cons (ods.collation_image (size_of sorted) (length sorted))
            (descriptors ods 0 sorted ++ names sorted) typed finish
          ∙ >>=-cong (write (ods.collation_image (size_of sorted) (length sorted)) typed) (λ headed.
            write_all-append_then (descriptors ods 0 sorted) (names sorted) headed finish
            ∙ rw (write_descriptors_lem ods sorted 0 headed (omega (arith, small))) (
                >>=-cong (write_all (descriptors ods 0 sorted) headed)
                  (λ after. ap (λ call. call >>= finish) (sym (write_names_lem sorted after)))))))

  length-pieces : (sorted : List Column) → length (flatten (pieces sorted)) ≡ 2 + size_of sorted
  unfolding flatten
  length-pieces sorted = omega (
    arith,
    images.head (size_of sorted) (length sorted),
    length-append (ods.collation_image (size_of sorted) (length sorted))
        (flatten (descriptors ods 0 sorted ++ names sorted)),
    length-flatten_append (descriptors ods 0 sorted) (names sorted),
    length-descriptors ods images sorted 0,
    length-names sorted,
  )

  filled_lem :
      (sorted : List Column) (memory : Bytes)
      → length memory ≡ 2 + size_of sorted
      → size_of sorted < 2 ^ 16
      → (write_all (pieces sorted) (make memory) >>= λ named. done named.buffer)
        ≡ done (
            u16_bytes (to_underlying collation)
            ++ (ods.collation_image (size_of sorted) (length sorted)
                ++ (flatten (descriptors ods 0 sorted) ++ flatten (names sorted))))
  unfolding make flatten
  filled_lem sorted memory same small = rw (
    write_all-exact (pieces sorted) memory (omega (arith, same, length-pieces sorted))
        (omega (arith, same, small)),
    flatten-append (descriptors ods 0 sorted) (names sorted),
  )

  IsBuilt : View → List Column → Type 0
  IsBuilt view sorted =
      (build_collation ods alloc view
        ≡ done (
            u16_bytes (to_underlying collation)
            ++ (ods.collation_image (size_of sorted) (length sorted)
                ++ (flatten (descriptors ods 0 sorted) ++ flatten (names sorted)))))
      × AllLocated (flatten (names sorted)) 0 sorted

  built_lem :
      (view : View)
      → size_of (sorted_columns view.columns) < 2 ^ 16
      → length (sorted_columns view.columns) < 2 ^ 16
      → IsBuilt view (sorted_columns view.columns)
  unfolding build_collation IsBuilt
  built_lem view small few =
      let sorted = sorted_columns view.columns in
      let (memory, made, same) =
        new_buffer_lem alloc allocates (2 + size_of sorted) (omega arith) in
      (
        rw
            (
              checked_cast_lem
                  (ods.collation_size
                    + ods.descriptor_size * length sorted
                    + item_names_size sorted)
                  small,
              checked_cast_lem (length sorted) few,
              made,
            )
            (writes_lem sorted (make memory) (omega (arith, small))
              ∙ filled_lem sorted memory same small),
        located_after (flatten (names sorted)) sorted [] []
            (sym (append-nil (flatten (names sorted)))),
      )

  -- Where the images of the structures are as long as their sizes, the SDK allocates and locks what it
  -- is asked for, and the collation is less than 64 KiB, `build_collation` throws nothing. With the
  -- columns that are sorted, in the view's order, its buffer holds the type, the collation's head and
  -- the descriptors of these columns, and then their names; and the offset and length in each descriptor
  -- are where the column's name stands among the names.
  pub build_collation_lem :
      (view : View) (sorted : List Column)
      → AreSorted view.columns sorted
      → ods.collation_size + ods.descriptor_size * length sorted + item_names_size sorted < 2 ^ 16
      → length sorted < 2 ^ 16
      → (build_collation ods alloc view
          ≡ done (
              u16_bytes (to_underlying collation)
              ++ (ods.collation_image
                    (ods.collation_size
                      + ods.descriptor_size * length sorted
                      + item_names_size sorted)
                    (length sorted)
                  ++ (flatten (descriptors ods 0 sorted) ++ flatten (names sorted)))))
        × AllLocated (flatten (names sorted)) 0 sorted
  unfolding IsBuilt
  build_collation_lem view sorted are small few =
      let same = sorted_columns_unique view.columns sorted are in
      subst (IsBuilt view) same (built_lem view (rw same small) (rw same few))
