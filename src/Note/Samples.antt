-- ===== src/Note/Samples.antt =====
-- The items of a note as a list of names and memories.
use dmn_cpp.Base.{
  ℕ, ◌≡◌, ◌≢◌, ◌∙◌, ap, sym, refl, zero, suc, Option-cases, Bool, true, false, Bool-cases, inl, inr,
  List, [], ◌∷◌, ◌++◌, Option, none, some, Bytes, bytes_eq, bytes_eq→eq, bytes_eq_refl, arith,
  if◌then◌else◌,
}
use dmn_cpp.Lmbcs.{Translate}
use dmn_cpp.Cursor.{u16_bytes}
use dmn_cpp.Note.Items.{Native}
use dmn_cpp.Note.Fields.{Keeps}
use dmn_cpp.Note.Listing.{Walk, walk_items, items}
use dmn_cpp.Note.Listing
use dmn_cpp.Note.Listed.{entry_for, lookup-append, or_else-none}

abbrev pub os : Translate
os = record { lmbcs_to_utf8 = λ b n. b; utf8_to_lmbcs = λ b n. b }

abbrev pub is_some : Option Bytes → Bool
is_some none = false
is_some (some b) = true

abbrev pub memory_of : Option Bytes → Bytes
memory_of none = []
memory_of (some b) = b

abbrev pub status_of : Option Bytes → ℕ
status_of none = 0x222
status_of (some b) = 0

-- The names and memories of the items, whose blocks are their places.
abbrev pub Fields : Type 0
Fields = List (Bytes × Bytes)

abbrev pub place_of : Bytes → Fields → ℕ
place_of name [] = 0
place_of name ((k, v) ∷ rest) = if bytes_eq k name then 0 else suc (place_of name rest)

abbrev pub replace_at : ℕ → Bytes → Fields → Fields
replace_at i memory [] = []
replace_at zero memory ((k, v) ∷ rest) = (k, memory) ∷ rest
replace_at (suc i) memory (entry ∷ rest) = entry ∷ replace_at i memory rest

abbrev pub remove : Bytes → Fields → Fields
remove name [] = []
remove name ((k, v) ∷ rest) =
    if bytes_eq k name then remove name rest else (k, v) ∷ remove name rest

abbrev pub native : Native Fields
native = record {
  is_present = λ name fields. is_some (Listing.lookup name fields);
  item_info = λ name fields. record {
    status = status_of (Listing.lookup name fields);
    item = place_of name fields;
    memory = memory_of (Listing.lookup name fields);
  };
  item_type = λ name fields. none;
  append_item = λ flags name kind value fields. (0, fields ++ (name, u16_bytes kind ++ value) ∷ []);
  modify_value =
      λ item flags kind value fields. (0, replace_at item (u16_bytes kind ++ value) fields);
  delete_item = λ name fields. (0, remove name fields);
  max_segment = 65536;
}

pub differs :
    (k name other : Bytes) → bytes_eq k name ≡ true → other ≢ name → bytes_eq k other ≡ false
differs k name other same different = elim (Bool-cases (bytes_eq k other)) [
  | inl e ↦ absurd (different (sym (bytes_eq→eq k other e) ∙ bytes_eq→eq k name same))
  | inr e ↦ e
]

replaced :
    (name memory : Bytes) (fields : Fields)
    → is_some (Listing.lookup name fields) ≡ true
    → Listing.lookup name (replace_at (place_of name fields) memory fields) ≡ some memory
unfolding Listing.lookup
replaced name memory [] present = cc
replaced name memory ((k, v) ∷ rest) present = elim (Bool-cases (bytes_eq k name)) [
  | inl same ↦ rw (same, same)
  | inr other ↦ rw (other, other) (replaced name memory rest (rw other at present))
]

replaced_other :
    (name other memory : Bytes) (fields : Fields)
    → other ≢ name
    → Listing.lookup other (replace_at (place_of name fields) memory fields)
      ≡ Listing.lookup other fields
unfolding Listing.lookup
replaced_other name other memory [] different = refl
replaced_other name other memory ((k, v) ∷ rest) different = elim (Bool-cases (bytes_eq k name)) [
  | inl same ↦ rw (same, differs k name other same different)
  | inr apart ↦ rw apart (
      ap (λ o. if bytes_eq k other then some v else o)
        (replaced_other name other memory rest different))
]

missing_name :
    (name : Bytes) (fields : Fields)
    → is_some (Listing.lookup name fields) ≡ false
    → Listing.lookup name fields ≡ none
missing_name name fields missing = elim (Option-cases (Listing.lookup name fields)) [
  | inl e ↦ e
  | inr (w, there) ↦ ground (arith, there)
]

added :
    (name memory : Bytes) (fields : Fields)
    → is_some (Listing.lookup name fields) ≡ false
    → Listing.lookup name (fields ++ (name, memory) ∷ []) ≡ some memory
unfolding entry_for
added name memory fields missing =
    lookup-append name name memory fields
    ∙ rw (missing_name name fields missing, bytes_eq_refl name)

added_other :
    (name other memory : Bytes) (fields : Fields)
    → other ≢ name
    → Listing.lookup other (fields ++ (name, memory) ∷ []) ≡ Listing.lookup other fields
unfolding entry_for
added_other name other memory fields different =
    lookup-append other name memory fields
    ∙ rw (differs name name other (bytes_eq_refl name) different)
        (or_else-none (Listing.lookup other fields))

status_zero : (o : Option Bytes) → is_some o ≡ true → status_of o ≡ 0
status_zero none present = cc
status_zero (some b) present = refl

pub keeps : Keeps native
keeps = record {
  found = λ name items present. status_zero (Listing.lookup name items) present;
  appended = λ flags name kind value items missing.
      let e = added name (u16_bytes kind ++ value) items missing in
      (
        refl,
        ap is_some e,
        ap memory_of e,
        λ other different.
            let o = added_other name other (u16_bytes kind ++ value) items different in
            (ap is_some o, ap memory_of o),
      );
  modified = λ flags name kind value items present.
      let e = replaced name (u16_bytes kind ++ value) items present in
      (
        refl,
        ap is_some e,
        ap memory_of e,
        λ other different.
            let o = replaced_other name other (u16_bytes kind ++ value) items different in
            (ap is_some o, ap memory_of o),
      );
}

removed :
    (name : Bytes) (fields : Fields) → is_some (Listing.lookup name (remove name fields)) ≡ false
unfolding Listing.lookup
removed name [] = refl
removed name ((k, v) ∷ rest) = elim (Bool-cases (bytes_eq k name)) [
  | inl same ↦ rw same (removed name rest)
  | inr other ↦ rw other (rw other (removed name rest))
]

pub erases :
    (name : Bytes) (items : Fields)
    → native.is_present name items ≡ true
    → let (status, after) = native.delete_item name items in
      (status ≡ 0) × (native.is_present name after ≡ false)
erases name items there = (refl, removed name items)
