-- ===== src/Acl/Manager.antt =====
-- src/acl/manager.cpp and src/acl/entry.cpp: the entries of an access control list, read from the native
-- list and written to it.
use Prim.Native.Nat.{bit_and, bit_or}
use dmn_cpp.Base.{
  ℕ, suc, ◌+◌, Bool, false, not, ◌&&◌, List, [], ◌∷◌, Option, none, some, Bytes, bytes_eq, length,
  is_empty, ◌==◌, if◌then◌else◌, Result, ok, invalid_argument, ◌>>=◌, ◌>>◌, guard,
}
use dmn_cpp.Status.{Codes, throw_if_error}
use dmn_cpp.Lmbcs.{Translate, to_string, from_string}
use dmn_cpp.Acl.{Native, RawEntry}
use dmn_cpp.Acl.Access.{
  Access, Entry, contains, flags_from, author_no_create, no_delete, create_personal_agent,
  create_personal_folder, create_folder, create_lotusscript, public_reader, public_writer,
  monitors_disallowed, no_replicate, principal_value, server, person, group,
}
use dmn_cpp.Acl.RoleMap.{at, entries, changed}

unfoldable pub entry_flag_mask : ℕ
unfolding flags_from
entry_flag_mask = flags_from 0 (
    author_no_create ∷ no_delete ∷ create_personal_agent ∷ create_personal_folder ∷ create_folder
    ∷ create_lotusscript ∷ public_reader ∷ public_writer ∷ monitors_disallowed ∷ no_replicate ∷ [])

unfoldable pub principal_type_mask : ℕ
unfolding principal_value
principal_type_mask =
    bit_or (bit_or (principal_value server) (principal_value person)) (principal_value group)

module _ {Acl Priv : Type 0} (native : Native Acl Priv) where
  unfoldable pub native_flags : Entry → ℕ
  native_flags value =
      let result = bit_or (value.access).flags value.principal in
      if value.administration_server then bit_or result native.flag_admin_server else result

  -- The loop of `roles_to_native`: the privileges that get set, and how many roles passed.
  unfoldable pub to_privileges : List (ℕ × Bytes) → List Bytes → Priv × ℕ → Priv × ℕ
  unfolding contains
  to_privileges [] roles (privileges, passed) = (privileges, passed)
  to_privileges ((i, role) ∷ defined) roles (privileges, passed) = to_privileges defined roles (
      if contains role roles
      then (native.set_priv (i + native.bit_priv_count) privileges, suc passed)
      else (privileges, passed))

  unfoldable pub passed_all : List Bytes → Priv × ℕ → Result Priv
  passed_all roles (privileges, passed) = do
    guard (passed == length roles) invalid_argument
    ok privileges

  module _ (codes : Codes) (os : Translate) (acl : Acl) where
    unfoldable pub roles_to_native : List Bytes → Result Priv
    roles_to_native roles = do
      defined ← entries native codes os acl
      passed_all roles (to_privileges defined roles (native.no_priv, 0))

    -- The loop of `roles_from_native`.
    unfoldable pub set_roles : Priv → List (ℕ × Bytes) → Result (List Bytes)
    set_roles privileges [] = ok []
    set_roles privileges ((i, role) ∷ defined) =
        if native.is_priv_set privileges (i + native.bit_priv_count) && not (is_empty role)
        then (at native codes os acl i >>= λ here.
            set_roles privileges defined >>= λ rest. ok (here ∷ rest))
        else set_roles privileges defined

    unfoldable pub roles_from_native : Priv → Result (List Bytes)
    roles_from_native privileges = do
      defined ← entries native codes os acl
      set_roles privileges defined

    unfoldable pub make_entry_access : ℕ → ℕ → List Bytes → Access
    unfolding entry_flag_mask
    make_entry_access level flags roles = record {
      level = level;
      roles = roles;
      flags = bit_and flags entry_flag_mask;
    }

    -- `read_entry`; a level above a byte is cut off.
    unfoldable pub read_entry : RawEntry Priv → Result Entry
    unfolding principal_type_mask
    read_entry raw = do
      roles ← roles_from_native raw.privileges
      ok (record {
        name = to_string os raw.name;
        access = make_entry_access (bit_and raw.access_level 255) raw.access_flags roles;
        principal = bit_and raw.access_flags principal_type_mask;
        administration_server = not (bit_and raw.access_flags native.flag_admin_server == 0);
      })

    -- The callback, for each entry in turn; after an exception it does nothing.
    unfoldable pub read_entries : List (RawEntry Priv) → Result (List Entry)
    read_entries [] = ok []
    read_entries (raw ∷ rest) = do
      one ← read_entry raw
      others ← read_entries rest
      ok (one ∷ others)

    -- `manager::entries`: the status of the enumeration comes before an exception of the callback.
    unfoldable pub all_entries : Result (List Entry)
    all_entries =
        let (status, raws) = native.enum_entries acl in do throw_if_error status; read_entries raws

    unfoldable pub find_entry : Bytes → List Entry → Option Entry
    find_entry name [] = none
    find_entry name (e ∷ es) = if bytes_eq e.name name then some e else find_entry name es

    unfoldable pub get_entry : Bytes → Result (Option Entry)
    get_entry name = do all ← all_entries; ok (find_entry name all)

    unfoldable pub lookup_access : Bytes → Result Access
    lookup_access names =
        let found = native.lookup_access acl names in
        do
          throw_if_error found.status
          roles ← roles_from_native found.privileges
          ok (make_entry_access (bit_and found.access_level 255) found.access_flags roles)

    unfoldable pub add_entry : Bytes → Access → ℕ → Result (Entry × Acl)
    add_entry name value principal =
        let entry : Entry = record {
          name = name;
          access = value;
          principal = principal;
          administration_server = false;
        } in
        do
          privileges ← roles_to_native value.roles
          after ← changed native codes os acl (
              native.add_entry acl (from_string os name) value.level privileges
                (native_flags entry))
          ok (entry, after)

    unfoldable pub update_bits : Bool → ℕ
    update_bits renamed =
        let bits =
          bit_or (bit_or native.update_level native.update_privileges) native.update_flags in
        if renamed then bit_or bits native.update_name else bits

    unfoldable pub update_entry : Bytes → Entry → Result Acl
    update_entry name value =
        let renamed = not (bytes_eq value.name name) in
        do
          privileges ← roles_to_native (value.access).roles
          changed native codes os acl (
              native.update_entry acl (if is_empty name then none else some (from_string os name))
                (update_bits renamed) (if renamed then some (from_string os value.name) else none)
                (value.access).level privileges (native_flags value))

    -- The setters of an entry: the list is updated under the name that the entry had, and the entry
    -- changes after that.
    unfoldable pub replace : Entry → Entry → Result (Entry × Acl)
    replace current updated = do after ← update_entry current.name updated; ok (updated, after)

    unfoldable pub set_name : Bytes → Entry → Result (Entry × Acl)
    set_name name e = replace e (record e { name = name })

    unfoldable pub set_access : Access → Entry → Result (Entry × Acl)
    set_access value e = replace e (record e { access = value })

    unfoldable pub set_level : ℕ → Entry → Result (Entry × Acl)
    set_level value e = set_access (record (e.access) { level = value }) e

    unfoldable pub set_type : ℕ → Entry → Result (Entry × Acl)
    set_type value e = replace e (record e { principal = value })

    unfoldable pub set_administration_server : Bool → Entry → Result (Entry × Acl)
    set_administration_server value e = replace e (record e { administration_server = value })

    unfoldable pub remove : Entry → Result Acl
    remove e = changed native codes os acl (native.delete_entry acl (from_string os e.name))

    -- `set_admin_server`; the name is canonicalized unless it is empty.
    unfoldable pub set_admin_server : Bytes → Result Acl
    set_admin_server name =
        let converted = from_string os name in
        if is_empty name
        then changed native codes os acl (native.set_admin_server acl converted)
        else let (status, canonical) = native.canonicalize converted in
          do
            throw_if_error status
            changed native codes os acl (native.set_admin_server acl canonical)
