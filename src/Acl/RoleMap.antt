-- ===== src/Acl/RoleMap.antt =====
-- src/acl/role.cpp and the iterator of include/dmn/acl/role.hpp: the slots of an access control list
-- that hold roles. A loop over slots counts down how many are left.
use dmn_cpp.Base.{
  ℕ, zero, suc, ◌+◌, ◌-◌, List, [], ◌∷◌, Option, none, some, Bytes, ltb, ◌==◌, if◌then◌else◌,
  Result, ok, err, out_of_range, ◌>>=◌, ◌>>◌, guard,
}
use dmn_cpp.Status.{Codes, is_not_found, throw_if_error}
use dmn_cpp.Lmbcs.{Translate, to_string, from_string}
use dmn_cpp.Acl.{Native}
use dmn_cpp.Acl.Role.{make_role}

-- `catch (const dmn::out_of_range&)`.
unfoldable pub catch_range : {A : Type 0} → Result A → Result (Option A)
catch_range (ok a) = ok (some a)
catch_range (err out_of_range) = ok none
catch_range (err e) = err e

module _ {Acl Priv : Type 0} (native : Native Acl Priv) (codes : Codes) (os : Translate) where
  unfoldable pub capacity : ℕ
  capacity = native.priv_count - native.bit_priv_count

  module _ (acl : Acl) where
    unfoldable pub read_name : ℕ × Bytes → Result Bytes
    read_name (status, name) =
        if is_not_found codes status
        then err out_of_range
        else do throw_if_error status; make_role (to_string os name)

    unfoldable pub at : ℕ → Result Bytes
    at key = do
      guard (ltb key capacity) out_of_range
      read_name (native.get_priv_name acl (key + native.bit_priv_count))

    unfoldable pub try_at : ℕ → Result (Option Bytes)
    unfolding catch_range
    try_at key = catch_range (at key)

    -- `size`, from a slot on.
    unfoldable pub size_from : ℕ → ℕ → Result ℕ
    size_from zero key = ok 0
    size_from (suc n) key = do
      here ← try_at key
      rest ← size_from n (suc key)
      ok (elim here [ none ↦ rest | some r ↦ suc rest ])

    unfoldable pub size : Result ℕ
    size = size_from capacity 0

    -- `skip_empty`: the first slot from `index` on that is taken, or the end.
    unfoldable pub skip_empty : ℕ → ℕ → Result ℕ
    skip_empty zero index = ok index
    skip_empty (suc n) index = do
      here ← try_at index
      elim here [ none ↦ skip_empty n (suc index) | some r ↦ ok index ]

    -- The constructor of an iterator.
    unfoldable pub iterator : ℕ → Result ℕ
    iterator index = skip_empty (capacity - index) index

    -- A range-for over the role map, from an iterator on, on fuel.
    unfoldable pub walk : ℕ → ℕ → Result (List (ℕ × Bytes))
    walk zero index = ok []
    walk (suc f) index = if index == capacity then ok [] else do
      role ← at index
      next ← iterator (suc index)
      rest ← walk f next
      ok ((index, role) ∷ rest)

    unfoldable pub entries : Result (List (ℕ × Bytes))
    entries = do begin ← iterator 0; walk capacity begin

    -- What a native call that changes the list leaves.
    abbrev pub changed : ℕ × Acl → Result Acl
    changed (status, after) = do throw_if_error status; ok after

    unfoldable pub set : ℕ → Bytes → Result Acl
    set key value = do
      guard (ltb key capacity) out_of_range
      changed (native.set_priv_name acl (key + native.bit_priv_count) (from_string os value))

    -- `insert`, from a slot on.
    unfoldable pub insert_from : ℕ → ℕ → Bytes → Result Acl
    insert_from zero key value = err out_of_range
    insert_from (suc n) key value = do
      here ← try_at key
      elim here [ none ↦ set key value | some r ↦ insert_from n (suc key) value ]

    unfoldable pub insert : Bytes → Result Acl
    insert value = insert_from capacity 0 value
