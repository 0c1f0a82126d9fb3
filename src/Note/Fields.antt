-- ===== src/Note/Fields.antt =====
-- What an item holds after it was set, and what setting leaves alone.
use dmn_cpp.Base.{
  ℕ, ◌<◌, ◌^◌, ◌≡◌, ◌≢◌, ◌∙◌, true, false, List, ◌++◌, Option, some, Bytes, length, Bool-cases, inl,
  inr, ok, invalid_argument, arith,
}
use dmn_cpp.Status.{throw_if_error}
use dmn_cpp.Kind.{Kind, to_underlying}
use dmn_cpp.Lmbcs.{Translate, from_string, to_string}
use dmn_cpp.Cursor.{Outcome, Cursor, done, threw, ◌>>=◌, u16_bytes}
use dmn_cpp.Value.{try_as, convert_string, apply_string, apply_double, item_memory, convert_double}
use dmn_cpp.Value.Convert.{try_as-apply}
use dmn_cpp.Note.Items.{
  Native, ItemFlag, accept, with_size, has, item_value, get, get_as, append_impl, modify_found,
  modify_impl, set,
}

-- What the SDK's calls promise: an item that is present is found; appending an item that is not
-- present, and modifying one that is, succeed, and the item then has the value; the other names are
-- as they were.
pub record Keeps {Items : Type 0} (native : Native Items) : Type 0 where
  pub found :
      (name : Bytes) (items : Items)
      → native.is_present name items ≡ true
      → (native.item_info name items).status ≡ 0
  pub appended :
      (flags : List ItemFlag) (name : Bytes) (kind : ℕ) (value : Bytes) (items : Items)
      → native.is_present name items ≡ false
      → let (status, after) = native.append_item flags name kind value items in
        (status ≡ 0)
        × (native.is_present name after ≡ true)
        × ((native.item_info name after).memory ≡ u16_bytes kind ++ value)
        × ((other : Bytes)
            → other ≢ name
            → (native.is_present other after ≡ native.is_present other items)
              × ((native.item_info other after).memory ≡ (native.item_info other items).memory))
  pub modified :
      (flags : List ItemFlag) (name : Bytes) (kind : ℕ) (value : Bytes) (items : Items)
      → native.is_present name items ≡ true
      → let (status, after) =
          native.modify_value (native.item_info name items).item flags kind value items in
        (status ≡ 0)
        × (native.is_present name after ≡ true)
        × ((native.item_info name after).memory ≡ u16_bytes kind ++ value)
        × ((other : Bytes)
            → other ≢ name
            → (native.is_present other after ≡ native.is_present other items)
              × ((native.item_info other after).memory ≡ (native.item_info other items).memory))

-- A key that the conversion to LMBCS leaves as it is, such as one of ASCII characters.
abbrev pub IsUnchanged : Translate → Bytes → Type 0
IsUnchanged os key = from_string os key ≡ key

module _ (os : Translate) {Items : Type 0} (native : Native Items) (keeps : Keeps native)
    (h : ℕ) where
  -- The items after a value was set at a key.
  pub record HoldsValue (key : Bytes) (value : Kind × Bytes) (items after : Items) : Type 0 where
    pub present : native.is_present (from_string os key) after ≡ true
    pub memory : (native.item_info (from_string os key) after).memory ≡ item_memory value
    pub others :
        (other : Bytes)
        → other ≢ from_string os key
        → (native.is_present other after ≡ native.is_present other items)
          × ((native.item_info other after).memory ≡ (native.item_info other items).memory)

  accept_lem : (answer : ℕ × Items) → answer.0 ≡ 0 → accept answer ≡ done (answer.1)
  unfolding accept throw_if_error
  accept_lem (status, items) success = ground arith

  appended_lem :
      (key : Bytes) (value : Kind × Bytes) (flags : List ItemFlag) (items : Items)
      → native.is_present (from_string os key) items ≡ false
      → (after : Items) × (append_impl os native (ok h) key value flags items ≡ done after)
        × HoldsValue key value items after
  unfolding append_impl item_memory
  appended_lem key (kind, buffer) flags items missing =
      let joined = with_size native.max_segment (length buffer) flags in
      let answer =
        native.append_item joined (from_string os key) (to_underlying kind) buffer items in
      let (success, present, memory, others) =
        keeps.appended joined (from_string os key) (to_underlying kind) buffer items missing in
      (
        answer.1,
        accept_lem answer success,
        record { present = present; memory = memory; others = others },
      )

  modified_lem :
      (key : Bytes) (value : Kind × Bytes) (flags : List ItemFlag) (items : Items)
      → IsUnchanged os key
      → native.is_present (from_string os key) items ≡ true
      → (after : Items) × (modify_impl os native (ok h) key value flags items ≡ done after)
        × HoldsValue key value items after
  unfolding modify_impl get has item_value modify_found throw_if_error item_memory
  modified_lem key (kind, buffer) flags items unchanged there =
      let joined = with_size native.max_segment (length buffer) flags in
      let there' : native.is_present key items ≡ true = rw unchanged at there in
      let answer =
        native.modify_value (native.item_info key items).item joined (to_underlying kind) buffer
          items in
      let (success, present, memory, others) =
        keeps.modified joined key (to_underlying kind) buffer items there' in
      (
        answer.1,
        rw (there, keeps.found key items there') (accept_lem answer success),
        record {
          present = rw unchanged present;
          memory = rw unchanged memory;
          others = rw unchanged others;
        },
      )

  -- Where the note's handle can be had, the SDK's items behave as `Keeps` says and the key is
  -- unchanged by the conversion, `set` throws nothing, whether the item was there or not: afterwards
  -- it is there, its memory is the type and the data that were set, and the items of other names are
  -- as they were.
  pub set_lem :
      (key : Bytes) (value : Kind × Bytes) (flags : List ItemFlag) (items : Items)
      → IsUnchanged os key
      → (after : Items) × (set os native (ok h) key value flags items ≡ done after)
        × HoldsValue key value items after
  unfolding set has
  set_lem key value flags items unchanged =
      elim (Bool-cases (native.is_present (from_string os key) items)) [
        | inl there ↦ rw there (modified_lem key value flags items unchanged there)
        | inr missing ↦ rw missing (appended_lem key value flags items missing)
      ]

  get_as_lem :
      {A : Type 0} (convert : Cursor → Outcome (Option A)) (key : Bytes) (value : Kind × Bytes)
      (items after : Items)
      → IsUnchanged os key
      → HoldsValue key value items after
      → get_as os native (ok h) convert key after ≡ try_as convert (item_memory value)
  unfolding get_as has item_value throw_if_error
  get_as_lem convert key value items after unchanged s =
      let there : native.is_present key after ≡ true = rw unchanged at s.present in
      let memory : (native.item_info key after).memory ≡ item_memory value =
        rw unchanged at s.memory in
      rw (s.present, keeps.found key after there, memory)

  -- Where the note's handle can be had, the SDK's items behave as `Keeps` says and the conversion to
  -- LMBCS leaves the key as it is, what `set` wrote `get` returns: a string whose conversion to
  -- LMBCS is shorter than 2 GiB and converts back to it, and a double of eight bytes, whatever the
  -- item was before and by whichever of its two calls `set` wrote it.
  pub get_as-set :
      (key text eight : Bytes) (flags : List ItemFlag) (items : Items)
      → IsUnchanged os key
      → to_string os (from_string os text) ≡ text
      → length (from_string os text) < 2 ^ 31
      → length eight ≡ 8
      → ((set os native (ok h) key (apply_string os text) flags items >>= λ after.
            get_as os native (ok h) (convert_string os) key after)
          ≡ done (some text))
        × ((set os native (ok h) key (apply_double eight) flags items >>= λ after.
              get_as os native (ok h) convert_double key after)
            ≡ done (some eight))
  get_as-set key text eight flags items unchanged same small e =
      let (after, ended, s) = set_lem key (apply_string os text) flags items unchanged in
      let (after2, ended2, s2) = set_lem key (apply_double eight) flags items unchanged in
      let (text_back, double_back, rest) = try_as-apply os text eight same small e in
      (
        rw ended (
            get_as_lem (convert_string os) key (apply_string os text) items after unchanged s
            ∙ text_back),
        rw ended2 (
            get_as_lem convert_double key (apply_double eight) items after2 unchanged s2
            ∙ double_back),
      )

-- An item that is not there cannot be modified.
pub modify_impl_missing :
    (os : Translate) {Items : Type 0} (native : Native Items) (h : ℕ) (key : Bytes)
    (value : Kind × Bytes) (flags : List ItemFlag) (items : Items)
    → native.is_present (from_string os key) items ≡ false
    → modify_impl os native (ok h) key value flags items ≡ threw invalid_argument
unfolding modify_impl get has modify_found
modify_impl_missing os native h key value flags items missing = rw missing
