-- ===== src/Design/ViewNote/Saved.antt =====
-- What the note of a view holds after its save, and what a second save does.
use dmn_cpp.Base.{ℕ, ◌+◌, ◌≡◌, length, true, false, List, [], ◌∷◌, Bytes}
use dmn_cpp.Lmbcs.{Translate, from_string}
use dmn_cpp.Formula
use dmn_cpp.Note.Items.{Native}
use dmn_cpp.Note.Fields.{Keeps}
use dmn_cpp.Design.View.{View}
use dmn_cpp.Design.Format.{name_column}
use dmn_cpp.Design.Collation
use dmn_cpp.Design.Collation.Located
use dmn_cpp.Design.Column.{Column}
use dmn_cpp.Design.ViewNote.{Names}

-- Erasing an item that is there succeeds, and it is gone.
abbrev pub Erases : {Items : Type 0} → Native Items → Type 0
Erases {Items} native =
    (name : Bytes) (items : Items)
    → native.is_present name items ≡ true
    → let (status, after) = native.delete_item name items in
      (status ≡ 0) × (native.is_present name after ≡ false)

-- What the item names of a view's columns take, once each has one.
unfoldable pub names_total : ℕ → List Column → ℕ
names_total sequence [] = 0
names_total sequence (col ∷ cols) =
    length (name_column sequence col).0.item_name + names_total ((name_column sequence col).1) cols

module _ (names : Names) (os : Translate) {Items : Type 0} (native : Native Items)
    (keeps : Keeps native) (erases : Erases native) (h : ℕ) where
  abbrev time_name : Bytes
  time_name = from_string os names.view_formula_time
