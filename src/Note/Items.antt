-- ===== src/Note/Items.antt =====
-- src/note.cpp and include/dmn/note.hpp: looking up, setting and erasing the items of a note. The
-- SDK's items are a parameter with the calls on them; `hdl` is what `get_handle` gives. Flags are the
-- list of the bits that are set. What a call that fails leaves behind is not modelled.
use dmn_cpp.Base.{
  ℕ, ◌/◌, Bool, List, ◌∷◌, Option, none, some, Bytes, length, ltb, if◌then◌else◌, Result,
  invalid_argument,
}
use dmn_cpp.Status.{throw_if_error}
use dmn_cpp.Kind.{Kind, invalid_or_unknown, to_underlying}
use dmn_cpp.Lmbcs.{Translate, from_string}
use dmn_cpp.Cursor.{Outcome, done, threw, ◌>>=◌, ◌>>◌, lift, Cursor}
use dmn_cpp.Value.{try_as}

-- src/flags.cpp: `item_flag`, but for none, which has no bit.
pub data ItemFlag : Type 0 where
  sign seal summary readwriters names placeholder protect readers : ItemFlag

-- What `NSFItemInfo` answers: a status, the item's block and its value's memory.
pub record Info : Type 0 where
  pub status : ℕ
  pub item : ℕ
  pub memory : Bytes

-- The calls on the items of the note behind a handle, each with its status and the items after it.
pub record Native (Items : Type 0) : Type 0 where
  pub is_present : Bytes → Items → Bool
  pub item_info : Bytes → Items → Info
  pub item_type : Bytes → Items → Option ℕ
  pub append_item : List ItemFlag → Bytes → ℕ → Bytes → Items → ℕ × Items
  pub modify_value : ℕ → List ItemFlag → ℕ → Bytes → Items → ℕ × Items
  pub delete_item : Bytes → Items → ℕ × Items
  pub max_segment : ℕ

unfoldable pub accept : {Items : Type 0} → ℕ × Items → Outcome Items
unfolding throw_if_error
accept (status, items) = lift (throw_if_error status) >> done items

-- `get_flags` or'ed to the flags.
unfoldable pub with_size : ℕ → ℕ → List ItemFlag → List ItemFlag
with_size max_segment size flags = if ltb size (max_segment / 4) then summary ∷ flags else flags

module _ (os : Translate) {Items : Type 0} (native : Native Items) (hdl : Result ℕ) where
  unfoldable pub has : Bytes → Items → Outcome Bool
  has key items = do h ← lift hdl; done (native.is_present (from_string os key) items)

  unfoldable pub get_type : Bytes → Items → Outcome ℕ
  unfolding to_underlying
  get_type key items = do
    h ← lift hdl
    done (elim (native.item_type (from_string os key) items) [
      | none ↦ to_underlying invalid_or_unknown
      | some t ↦ t
    ])

  unfoldable pub erase : Bytes → Items → Outcome Items
  unfolding accept
  erase key items = do h ← lift hdl; accept (native.delete_item (from_string os key) items)

  -- The constructor of an `item_value`.
  unfoldable pub item_value : Bytes → Items → Outcome Info
  unfolding throw_if_error
  item_value name items = do
    h ← lift hdl
    let info = native.item_info name items
    lift (throw_if_error info.status) >> done info

  -- `get<item_value>`: the presence is that of the converted key, the item that of the key as it is.
  unfoldable pub get : Bytes → Items → Outcome (Option Info)
  unfolding has item_value
  get key items = do
    present ← has key items
    if present then (item_value key items >>= λ info. done (some info)) else done none

  -- `get<T>` of a type that values convert to, with the same two names.
  unfoldable pub get_as :
      {A : Type 0} → (Cursor → Outcome (Option A)) → Bytes → Items → Outcome (Option A)
  unfolding has item_value try_as
  get_as convert key items = do
    present ← has key items
    if present then (item_value key items >>= λ info. try_as convert info.memory) else done none

  unfoldable pub append_impl : Bytes → Kind × Bytes → List ItemFlag → Items → Outcome Items
  unfolding with_size accept to_underlying
  append_impl key (kind, buffer) flags items = do
    let joined = with_size native.max_segment (length buffer) flags
    h ← lift hdl
    accept (native.append_item joined (from_string os key) (to_underlying kind) buffer items)

  -- `modify_impl` from what `get` gave on.
  unfoldable pub modify_found : Option Info → Kind × Bytes → List ItemFlag → Items → Outcome Items
  unfolding with_size accept to_underlying
  modify_found none value flags items = threw invalid_argument
  modify_found (some info) (kind, buffer) flags items = do
    let joined = with_size native.max_segment (length buffer) flags
    h ← lift hdl
    accept (native.modify_value info.item joined (to_underlying kind) buffer items)

  unfoldable pub modify_impl : Bytes → Kind × Bytes → List ItemFlag → Items → Outcome Items
  unfolding get modify_found
  modify_impl key value flags items = do found ← get key items; modify_found found value flags items

  -- `set`, with the type and the data that `apply` passes to the setter.
  unfoldable pub set : Bytes → Kind × Bytes → List ItemFlag → Items → Outcome Items
  unfolding has
  set key value flags items = do
    present ← has key items
    if present then modify_impl key value flags items else append_impl key value flags items
