-- ===== src/View/Rows.antt =====
-- The fuel of the page loop of src/view.cpp, and the entries that it reads out of a page's memory.
use dmn_cpp.Base.{
  ℕ, zero, suc, ◌+◌, ◌-◌, ◌%◌, ◌^◌, ◌≤◌, ◌<◌, ◌≡◌, ◌∙◌, none, some, ok, err, refl, ap, Bool, true,
  false, not, ◌||◌, List, [], ◌∷◌, ◌++◌, Option, Bytes, leb, ◌==◌, Result, arith, map, length,
  length-append,
}
use dmn_cpp.Status.{throw_if_error}
use dmn_cpp.Cursor.{Outcome, done, threw, fault, make, set_offset}
use dmn_cpp.Cursor.Held.{
  At, at, At-split, At-all, read-At, bytes_at_lem, advance_at, lengths_bytes, AllShort, lengths_at,
}
use dmn_cpp.Cursor.Transfer.{flatten}
use dmn_cpp.View.{
  Layout, Page, Walk, visit, attempt, stop_if, lift, read_row, read_rows, read_columns, followed_by,
  lock_page, read_pages,
}

module _ (layout : Layout) {Note : Type 0} (get_note : ℕ → Result (Option Note)) where
  attempt-cong :
      {A : Type 0} (m : Outcome A) (k k' : A → Walk layout get_note)
      → ((a : A) → k a ≡ k' a)
      → attempt layout get_note m k ≡ attempt layout get_note m k'
  attempt-cong (done a) k k' p = p a
  attempt-cong (threw e) k k' p = refl
  attempt-cong fault k k' p = refl

  stop_if-cong :
      (b : Bool) (k k' : Unit {0} → Walk layout get_note)
      → (b ≡ false → k tt ≡ k' tt)
      → stop_if layout get_note b k ≡ stop_if layout get_note b k'
  stop_if-cong true k k' p = refl
  stop_if-cong false k k' p = p refl

  pages-none :
      {Position : Type 0} (read_entries : Position → ℕ → ℕ → Page Position) (f : ℕ) (p : Position)
      (skip : ℕ) (more : Bool)
      → read_pages layout get_note read_entries f p skip 0 more ≡ ([], done tt)
  unfolding read_pages
  pages-none read_entries zero p skip more = refl
  pages-none read_entries (suc f) p skip true = refl
  pages-none read_entries (suc f) p skip false = refl

  -- The page loop ends by itself: fuel for the entries that remain is enough, and more changes
  -- nothing, whatever the native calls answer.
  pub read_pages-enough :
      {Position : Type 0} (read_entries : Position → ℕ → ℕ → Page Position) (f g : ℕ) (p : Position)
      (skip remaining : ℕ) (more : Bool)
      → remaining ≤ f
      → remaining ≤ g
      → read_pages layout get_note read_entries f p skip remaining more
        ≡ read_pages layout get_note read_entries g p skip remaining more
  unfolding read_pages
  read_pages-enough read_entries zero zero p skip remaining more a b = refl
  read_pages-enough read_entries zero (suc g) p skip remaining more a b =
      let e : remaining ≡ 0 = omega (arith, a) in
      rw (e, pages-none read_entries (suc g) p skip more)
  read_pages-enough read_entries (suc f) zero p skip remaining more a b =
      let e : remaining ≡ 0 = omega (arith, b) in
      rw (e, pages-none read_entries (suc f) p skip more)
  read_pages-enough read_entries (suc f) (suc g) p skip remaining more a b =
      let page = read_entries p skip remaining in
      stop_if-cong (not more || (remaining == 0)) _ _ λ going.
        attempt-cong (lift (throw_if_error page.status)) _ _ λ _.
          attempt-cong (lock_page layout get_note read_entries page.memory) _ _ λ memory.
            stop_if-cong (page.count == 0) _ _ λ some.
              ap
                (followed_by layout get_note read_entries
                  (read_rows layout get_note page.count (make memory)))
                (stop_if-cong (leb remaining page.count) _ _ λ below.
                  read_pages-enough read_entries f g page.position 0 (remaining - page.count)
                    page.more (ground arith) (ground arith))

-- The items that are not empty, which are the ones that become columns.
unfoldable pub nonempty : List Bytes → List Bytes
nonempty [] = []
nonempty ([] ∷ bs) = nonempty bs
nonempty ((x ∷ xs) ∷ bs) = (x ∷ xs) ∷ nonempty bs

columns_at :
    (memory : Bytes) (p : ℕ) (bs : List Bytes)
    → length memory < 2 ^ 32
    → At memory p (flatten bs)
    → read_columns (map length bs) (at memory p)
      ≡ done (nonempty bs, at memory (p + length (flatten bs)))
unfolding read_columns nonempty flatten
columns_at memory p [] small a = ap (λ k. done ([], at memory k)) (omega arith)
columns_at memory p ([] ∷ bs) small a = columns_at memory p bs small a
columns_at memory p ((x ∷ xs) ∷ bs) small a =
    let (first, rest) = At-split memory p (x ∷ xs) (flatten bs) a in
    let e : p + suc (length xs) + length (flatten bs) ≡ p + suc (length (xs ++ flatten bs)) =
      omega (arith, length-append xs (flatten bs)) in
    rw
      (
        bytes_at_lem memory p (x ∷ xs) first,
        advance_at memory p (x ∷ xs) small first,
        columns_at memory (p + suc (length xs)) bs small rest,
      )
      (ap (λ k. done ((x ∷ xs) ∷ nonempty bs, at memory k)) e)

-- One entry's bytes.
unfoldable pub row_bytes : Bytes → Bytes → List Bytes → Bytes
row_bytes id table items = id ++ (table ++ (lengths_bytes items ++ flatten items))

module _ (layout : Layout) where
  row_at :
      (memory id table : Bytes) (p : ℕ) (items : List Bytes)
      → length memory < 2 ^ 32
      → length id ≡ layout.note_id_size
      → length table ≡ layout.table_size
      → layout.table_items table ≡ length items
      → AllShort items
      → At memory p (row_bytes id table items)
      → read_row layout (at memory p)
        ≡ done (
          (layout.note_id id, nonempty items),
          at memory ((p + length id + layout.table_length table) % 2 ^ 64),
        )
  unfolding read_row row_bytes set_offset
  row_at memory id table p items small e₁ e₂ e₃ short a =
      let (a₁, r₁) = At-split memory p id (table ++ (lengths_bytes items ++ flatten items)) a in
      let (a₂, r₂) =
        At-split memory (p + length id) table (lengths_bytes items ++ flatten items) r₁ in
      let (a₃, r₃) =
        At-split memory (p + length id + length table) (lengths_bytes items) (flatten items) r₂ in
      rw (
        ← e₁,
        ← e₂,
        read-At memory p id small a₁,
        read-At memory (p + length id) table small a₂,
        e₃,
        lengths_at memory (p + length id + length table) items small short a₃,
        columns_at memory (p + length id + length table + length (lengths_bytes items)) items small
            r₃,
      )

pub record Row : Type 0 where
  pub id : Bytes
  pub table : Bytes
  pub items : List Bytes

-- An entry as the SDK lays it out: the table gives the number of its items and its own size.
unfoldable pub IsRow : Layout → Row → Type 0
IsRow layout r =
    (length r.id ≡ layout.note_id_size)
    × (length r.table ≡ layout.table_size)
    × (layout.table_items r.table ≡ length r.items)
    × (layout.table_length r.table ≡ length (r.table ++ (lengths_bytes r.items ++ flatten r.items)))
    × AllShort r.items

unfoldable pub AreRows : Layout → List Row → Type 0
AreRows layout [] = Unit {0}
AreRows layout (r ∷ rs) = IsRow layout r × AreRows layout rs

unfoldable pub rows_bytes : List Row → Bytes
rows_bytes [] = []
rows_bytes (r ∷ rs) = row_bytes r.id r.table r.items ++ rows_bytes rs

next_row :
    {n : ℕ} (memory : Bytes) (p : ℕ) (r : Row)
    → length memory < 2 ^ 32
    → At memory p (row_bytes r.id r.table r.items)
    → n ≡ length (r.table ++ (lengths_bytes r.items ++ flatten r.items))
    → (p + length r.id + n) % 2 ^ 64 ≡ p + length (row_bytes r.id r.table r.items)
unfolding At row_bytes
next_row memory p r small (room, held) e = omega (
  arith,
  room,
  small,
  e,
  length-append r.id (r.table ++ (lengths_bytes r.items ++ flatten r.items)),
)

-- A note that is there, with the columns that are given.
abbrev pub as_list : {Note : Type 0} → Option Note → List Bytes → List (Note × List Bytes)
as_list none columns = []
as_list (some note) columns = (note, columns) ∷ []

module _ (layout : Layout) {Note : Type 0} (get_note : ℕ → Result (Option Note)) where
  -- The callbacks that a list of entries leads to.
  unfoldable pub visits : List Row → Walk layout get_note
  visits [] = ([], done tt)
  visits (r ∷ rs) = elim (get_note (layout.note_id r.id)) [
    | err e ↦ ([], threw e)
    | ok note ↦ (as_list note (nonempty r.items) ++ (visits rs).0, (visits rs).1)
  ]

  visit_lem :
      (looked : Result (Option Note)) (columns : List Bytes) (rest : Walk layout get_note)
      → visit layout get_note looked columns rest
        ≡ elim looked [ err e ↦ ([], threw e) | ok note ↦ (as_list note columns ++ rest.0, rest.1) ]
  unfolding visit
  visit_lem (err e) columns rest = refl
  visit_lem (ok none) columns rest = refl
  visit_lem (ok (some note)) columns rest = refl

  rows_at :
      (memory : Bytes) (p : ℕ) (rows : List Row)
      → length memory < 2 ^ 32
      → AreRows layout rows
      → At memory p (rows_bytes rows)
      → read_rows layout get_note (length rows) (at memory p) ≡ visits rows
  unfolding read_rows rows_bytes AreRows IsRow visits
  rows_at memory p [] small are a = refl
  rows_at memory p (r ∷ rs) small ((e₁, e₂, e₃, e₄, short), are) a =
      let (first, rest) = At-split memory p (row_bytes r.id r.table r.items) (rows_bytes rs) a in
      let next : (p + length r.id + layout.table_length r.table) % 2 ^ 64
          ≡ p + length (row_bytes r.id r.table r.items) =
        next_row memory p r small first e₄ in
      rw (row_at layout memory r.id r.table p r.items small e₁ e₂ e₃ short first, next)
        (ap (visit layout get_note (get_note (layout.note_id r.id)) (nonempty r.items))
            (rows_at memory (p + length (row_bytes r.id r.table r.items)) rs small are rest)
          ∙ visit_lem (get_note (layout.note_id r.id)) (nonempty r.items) (visits rs))

  -- A page, below 4 GiB, that holds entries laid out as `AreRows` says is read entry by entry: the
  -- callback gets each note that is there with the items that are not empty, in order, up to the
  -- first lookup that throws, and nothing is read outside the page.
  pub read_rows-page :
      (rows : List Row)
      → AreRows layout rows
      → length (rows_bytes rows) < 2 ^ 32
      → read_rows layout get_note (length rows) (make (rows_bytes rows)) ≡ visits rows
  unfolding make
  read_rows-page rows are small =
      rows_at (rows_bytes rows) 0 rows small are (At-all (rows_bytes rows))
