-- ===== src/Design/Format/Tagged.antt =====
-- The first loop of `build_view_format`: the columns get their item names, and their formulas are
-- tagged with them.
use dmn_cpp.Base.{
  codes, decimal, ℕ, ◌+◌, ◌-◌, ◌%◌, ◌^◌, ◌≤◌, ◌<◌, ◌≡◌, ◌≢◌, ◌∙◌, ap, sym, refl, true, false, not,
  List, [], ◌∷◌, ◌++◌, Bytes, length, length-append, append_assoc, ◌==◌, runtime_error, arith,
}
use dmn_cpp.Cursor.{done, threw}
use dmn_cpp.Status.{throw_if_error}
use dmn_cpp.Formula.{Native, Header, header_bytes, size, add_item_name}
use dmn_cpp.Formula.ItemName.{
  answer_of, section, label, tag, length-tag, add_item_name_lem, add_item_name-tagged,
}
use dmn_cpp.Design.Column.{Column}
use dmn_cpp.Design.Format.{
  make_item_name, Ods, Prepared, name_column, column_bytes, tag_column, prepare_columns,
}
use dmn_cpp.Design.Format.Filled.{Works}

-- The SDK can make a memory larger, and keeps what is in it.
abbrev pub Grows : Native → Type 0
Grows native =
    (n : ℕ) (memory : Bytes)
    → length memory ≤ n
    → (extra : Bytes) × (length extra ≡ n - length memory)
      × (native.realloc n memory ≡ (0, memory ++ extra))

-- A column whose formula has no item name yet, and where the name fits.
pub record Plain (col : Column) : Type 0 where
  pub hdr : Header
  pub code : Bytes
  pub formula : col.formula ≡ header_bytes hdr ++ code
  pub plain : hdr.flags ≡ 0
  pub consistent : hdr.length ≡ 6 + length code
  pub length_fits : hdr.length + section (length col.item_name) < 2 ^ 16
  pub offset_fits : hdr.offset + section (length col.item_name) < 2 ^ 16

-- A column after its turn: its name, its title, and its formula behind the name.
pub record IsTagged (col after : Column) : Type 0 where
  pub plain : Plain col
  pub name : after.item_name ≡ col.item_name
  pub title : after.title ≡ col.title
  pub formula : after.formula ≡ tag plain.hdr col.item_name ++ plain.code

abbrev pub AllPlain : ℕ → List Column → Type 0
AllPlain sequence [] = Unit {0}
AllPlain sequence (col ∷ cols) =
    Plain (name_column sequence col).0 × AllPlain (name_column sequence col).1 cols

abbrev pub AllTagged : ℕ → List Column → List Column → Type 0
AllTagged sequence [] [] = Unit {0}
AllTagged sequence (col ∷ cols) (after ∷ afters) =
    IsTagged (name_column sequence col).0 after × AllTagged (name_column sequence col).1 cols afters
AllTagged sequence _ _ = false ≡ true

-- The item name of a column, from its own and the next number: one without a name takes the number, and
-- only then it moves on, as a uint16_t does.
unfoldable pub next_name : ℕ → Bytes → Bytes × ℕ
next_name sequence [] = (codes "$" ++ decimal sequence, (sequence + 1) % 2 ^ 16)
next_name sequence (c ∷ name) = (c ∷ name, sequence)

unfoldable pub numbered : ℕ → List Column → List Bytes
numbered sequence [] = []
numbered sequence (col ∷ cols) =
    let (name, following) = next_name sequence col.item_name in name ∷ numbered following cols

abbrev pub item_names : List Column → List Bytes
item_names [] = []
item_names (col ∷ cols) = col.item_name ∷ item_names cols

named_as :
    (sequence : ℕ) (col : Column) (name : Bytes)
    → col.item_name ≡ name
    → ((name_column sequence col).0.item_name ≡ (next_name sequence col.item_name).0)
      × ((name_column sequence col).1 ≡ (next_name sequence col.item_name).1)
unfolding name_column next_name make_item_name
named_as sequence col [] e = (rw e refl, rw e refl)
named_as sequence col (c ∷ name) e = (rw e refl, rw e refl)

pub AllTagged-numbered :
    (sequence : ℕ) (cols afters : List Column)
    → AllTagged sequence cols afters
    → item_names afters ≡ numbered sequence cols
unfolding numbered
AllTagged-numbered sequence [] [] t = refl
AllTagged-numbered sequence [] (after ∷ afters) t = cc
AllTagged-numbered sequence (col ∷ cols) [] t = cc
AllTagged-numbered sequence (col ∷ cols) (after ∷ afters) (t, ts) =
    let (name, following) = named_as sequence col col.item_name refl in
    let rest = AllTagged-numbered (name_column sequence col).1 cols afters ts in
    rw (t.name, name, rest, following) refl

unfoldable pub total : Ods → List Column → ℕ
total ods [] = 0
total ods (col ∷ cols) = column_bytes ods (length col.formula) col + total ods cols

header_length : (hdr : Header) (code : Bytes) → length (header_bytes hdr ++ code) ≡ 6 + length code
unfolding header_bytes
header_length hdr code = omega arith

-- What the columns take once each has its name, in its item name and in front of its formula.
unfoldable pub tagged_total : Ods → ℕ → List Column → ℕ
tagged_total ods sequence [] = 0
tagged_total ods sequence (col ∷ cols) =
    let named = (name_column sequence col).0 in
    column_bytes ods (length named.formula + section (length named.item_name)) named
    + tagged_total ods ((name_column sequence col).1) cols

module _ (native : Native) (works : Works native) where
  size_lem : (memory : Bytes) → size native false memory ≡ done (length memory)
  unfolding size throw_if_error
  size_lem memory =
      let whole : length memory + 0 ≡ length memory = omega arith in rw (works.sized memory, whole)

  module _ (grows : Grows native) where
    tagged_formula :
        (col : Column) (p : Plain col)
        → add_item_name native col.item_name col.formula ≡ done (tag p.hdr col.item_name ++ p.code)
    tagged_formula col p =
        let name_bytes = section (length col.item_name) in
        let whole = header_length p.hdr p.code in
        let room : length (header_bytes p.hdr ++ p.code) ≤ p.hdr.length + name_bytes =
          omega (arith, whole, p.consistent) in
        let (extra, grown, resized) =
          grows (p.hdr.length + name_bytes) (header_bytes p.hdr ++ p.code) room in
        let extra_size : length extra ≡ name_bytes = omega (arith, grown, whole, p.consistent) in
        let after_size : length (header_bytes p.hdr ++ (p.code ++ extra))
            ≡ p.hdr.length + name_bytes =
          omega (
            arith,
            header_length p.hdr (p.code ++ extra),
            length-append p.code extra,
            extra_size,
            p.consistent,
          ) in
        let first_size : length (header_bytes p.hdr ++ p.code) ≡ p.hdr.length =
          omega (arith, whole, p.consistent) in
        rw p.formula (
          add_item_name_lem native p.hdr col.item_name p.code extra (p.hdr.length + name_bytes)
            p.plain p.consistent p.length_fits p.offset_fits
            (works.sized (header_bytes p.hdr ++ p.code) ∙ ap answer_of first_size)
            (resized ∙ ap (λ (m : Bytes). (0, m)) (append_assoc (header_bytes p.hdr) p.code extra))
            extra_size
            (works.sized (header_bytes p.hdr ++ (p.code ++ extra)) ∙ ap answer_of after_size)
            (omega (arith, p.consistent)) (omega arith))

    tag_column_lem :
        (ods : Ods) (col : Column)
        → Plain col
        → (after : Column) × (tag_column native ods col
            ≡ done (after, column_bytes ods (length after.formula) after))
          × IsTagged col after
    unfolding tag_column column_bytes
    tag_column_lem ods col p =
        let formula = tag p.hdr col.item_name ++ p.code in
        (
          record col {
            formula = formula;
            formula_size = length formula % 2 ^ 16;
            item_name_size = length col.item_name % 2 ^ 16;
            title_size = length col.title % 2 ^ 16;
          },
          rw (tagged_formula col p, size_lem formula),
          record { plain = p; name = refl; title = refl; formula = refl },
        )

name_column-formula :
    (sequence : ℕ) (col : Column) → (name_column sequence col).0.formula ≡ col.formula
unfolding name_column
name_column-formula sequence col = ground arith

Plain-not_empty :
    (col : Column) (formula : Bytes)
    → Plain col
    → col.formula ≡ formula
    → not (length formula == 0) ≡ true
Plain-not_empty col formula p e =
    let whole : length formula ≡ 6 + length p.code =
      ap length (sym e ∙ p.formula) ∙ header_length p.hdr p.code in
    ground (arith, whole)

module _ (native : Native) (ods : Ods) (works : Works native) where
  -- The loop throws nothing where the columns are plain.
  pub prepare_columns_lem :
      Grows native
      → (sequence : ℕ) (cols : List Column) → AllPlain sequence cols
      → (prepared : Prepared) × (prepare_columns native ods sequence cols ≡ done prepared)
        × AllTagged sequence cols prepared.columns
        × (prepared.bytes ≡ total ods prepared.columns)
  unfolding prepare_columns total
  prepare_columns_lem grows sequence [] plain =
      (record { columns = []; sequence_number = sequence; bytes = 0 }, refl, tt, refl)
  prepare_columns_lem grows sequence (col ∷ cols) (p, plain) =
      let named = (name_column sequence col).0 in
      let same = name_column-formula sequence col in
      let positive = Plain-not_empty named col.formula p same in
      let (after, turned, tagged) = tag_column_lem native works grows ods named p in
      let (rest, ended, all_tagged, sum) =
        prepare_columns_lem grows ((name_column sequence col).1) cols plain in
      (
        record rest {
          columns = after ∷ rest.columns;
          bytes = column_bytes ods (length after.formula) after + rest.bytes;
        },
        rw (size_lem native works col.formula, positive, turned, ended),
        (tagged, all_tagged),
        ap (λ n. column_bytes ods (length after.formula) after + n) sum,
      )

  IsTagged-size :
      (col after : Column) (t : IsTagged col after)
      → length after.formula ≡ 6 + section (length col.item_name) + length t.plain.code
  IsTagged-size col after t =
      ap length t.formula
      ∙ omega (
        arith,
        length-append (tag t.plain.hdr col.item_name) t.plain.code,
        length-tag t.plain.hdr col.item_name,
      )

  pub AllTagged-total :
      (sequence : ℕ) (cols afters : List Column)
      → AllTagged sequence cols afters
      → total ods afters ≡ tagged_total ods sequence cols
  unfolding total tagged_total column_bytes
  AllTagged-total sequence [] [] t = refl
  AllTagged-total sequence [] (after ∷ afters) t = cc
  AllTagged-total sequence (col ∷ cols) [] t = cc
  AllTagged-total sequence (col ∷ cols) (after ∷ afters) (t, ts) =
      let named = (name_column sequence col).0 in
      let before : length named.formula ≡ 6 + length t.plain.code =
        ap length t.plain.formula ∙ header_length t.plain.hdr t.plain.code in
      omega (
        arith,
        IsTagged-size named after t,
        before,
        ap length t.name,
        ap length t.title,
        AllTagged-total ((name_column sequence col).1) cols afters ts,
      )

  tagged_again :
      (col after : Column) (name : Bytes)
      → IsTagged col after
      → add_item_name native name after.formula ≡ threw runtime_error
  unfolding tag
  tagged_again col after name t =
      let hdr = t.plain.hdr in
      let n = section (length col.item_name) in
      let new : Header = record { length = hdr.length + n; flags = 2; offset = hdr.offset + n } in
      let rest = label col.item_name ++ t.plain.code in
      let e : after.formula ≡ header_bytes new ++ rest =
        t.formula ∙ append_assoc (header_bytes new) (label col.item_name) t.plain.code in
      let m = length (header_bytes new ++ rest) in
      let size_is : m ≡ 6 + length rest = header_length new rest in
      let whole : m ≡ 6 + n + length t.plain.code = ap length (sym e) ∙ IsTagged-size col after t in
      rw e (
        add_item_name-tagged native new name rest m (omega arith)
          (omega (arith, t.plain.length_fits)) (omega arith) (omega (arith, t.plain.offset_fits))
          (works.sized (header_bytes new ++ rest)) (omega (arith, size_is)) (omega (arith, size_is))
          (omega (arith, whole, t.plain.length_fits, t.plain.consistent)))

  -- Columns that were prepared once are refused the second time.
  pub prepare_columns_twice :
      (sequence again : ℕ) (cols afters : List Column)
      → cols ≢ []
      → AllTagged sequence cols afters
      → prepare_columns native ods again afters ≡ threw runtime_error
  unfolding prepare_columns tag_column
  prepare_columns_twice sequence again [] afters nonempty all_tagged = absurd (nonempty refl)
  prepare_columns_twice sequence again (col ∷ cols) [] nonempty all_tagged = cc
  prepare_columns_twice sequence again (col ∷ cols) (after ∷ afters) nonempty (t, all_tagged) =
      let same = name_column-formula again after in
      let named = (name_column again after).0 in
      let positive : not (length after.formula == 0) ≡ true =
        ground (arith, IsTagged-size (name_column sequence col).0 after t) in
      rw (
        size_lem native works after.formula,
        positive,
        same,
        tagged_again (name_column sequence col).0 after named.item_name t,
      )
