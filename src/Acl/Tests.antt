-- ===== src/Acl/Tests.antt =====
-- A list of four slots as the native list: slots 0 and 2 hold roles.
use dmn_cpp.Base.{
  ℕ, zero, suc, ◌-◌, ◌≡◌, refl, Bool, false, ◌||◌, List, [], ◌∷◌, Bytes, codes, ◌==◌, is_empty,
  if◌then◌else◌, ok,
}
use dmn_cpp.Status.{is_not_found, throw_if_error}
use dmn_cpp.Status.Samples
use dmn_cpp.Lmbcs.{Translate, to_string, from_string}
use dmn_cpp.Acl.{Native}
use dmn_cpp.Acl.Role.{make_role, normalize, front, back}
use dmn_cpp.Acl.RoleMap.{
  at, try_at, catch_range, capacity, read_name, entries, insert, insert_from, set, skip_empty,
  iterator, walk,
}
use dmn_cpp.Acl.Slots.{taken_from, entries-taken}
use dmn_cpp.Acl.Access.{contains}
use dmn_cpp.Acl.Names.{Header}
use dmn_cpp.Acl.Manager.{roles_to_native, roles_from_native, to_privileges, passed_all}
use dmn_cpp.Acl.Privileges.{IsPrivileges, wanted, roles_from_native-to_native}

abbrev os : Translate
os = record { lmbcs_to_utf8 = λ s n. s; utf8_to_lmbcs = λ s n. s }

-- The name in a slot; a slot that is free has none, which is status 0x404.
abbrev name_at : List Bytes → ℕ → ℕ × Bytes
name_at [] i = (0x404, [])
name_at (n ∷ ns) zero = if is_empty n then (0x404, []) else (0, n)
name_at (n ∷ ns) (suc i) = name_at ns i

abbrev replaced : List Bytes → ℕ → Bytes → List Bytes
replaced [] i b = []
replaced (n ∷ ns) zero b = b ∷ ns
replaced (n ∷ ns) (suc i) b = n ∷ replaced ns i b

abbrev has : List ℕ → ℕ → Bool
has [] k = false
has (j ∷ js) k = (j == k) || has js k

abbrev native : Native (List Bytes) (List ℕ)
native = record {
  priv_count = 5;
  bit_priv_count = 1;
  flag_admin_server = 0x8000;
  update_name = 1;
  update_level = 2;
  update_privileges = 4;
  update_flags = 8;
  get_priv_name = λ acl i. name_at acl (i - 1);
  set_priv_name = λ acl i b. (0, replaced acl (i - 1) b);
  no_priv = [];
  is_priv_set = has;
  set_priv = λ j p. j ∷ p;
  lookup_access =
      λ acl names. record { status = 0; access_level = 3; privileges = []; access_flags = 0 };
  enum_entries = λ acl. (0, []);
  add_entry = λ acl name level p flags. (0, acl);
  update_entry = λ acl name bits renamed level p flags. (0, acl);
  delete_entry = λ acl name. (0, acl);
  set_admin_server = λ acl name. (0, acl);
  canonicalize = λ name. (0, name);
}

abbrev two_roles : List Bytes
two_roles = codes "A" ∷ [] ∷ codes "C" ∷ [] ∷ []

entries-taken_example :
    entries native Samples.codes os two_roles ≡ ok ((0, codes "A") ∷ (2, codes "C") ∷ [])
unfolding taken_from try_at catch_range at capacity read_name is_not_found throw_if_error make_role
    normalize front back to_string
entries-taken_example = entries-taken native Samples.codes os two_roles

inserted :
    insert native Samples.codes os two_roles (codes "B")
    ≡ ok (codes "A" ∷ codes "B" ∷ codes "C" ∷ [] ∷ [])
unfolding insert insert_from set try_at catch_range at capacity read_name is_not_found
    throw_if_error make_role normalize front back to_string from_string
inserted = refl

privileges : IsPrivileges native
unfolding IsPrivileges
privileges = (λ k. refl, λ j k p. refl)

written : roles_to_native native Samples.codes os two_roles (codes "C" ∷ []) ≡ ok (3 ∷ [])
unfolding roles_to_native passed_all to_privileges contains entries walk iterator skip_empty try_at
    catch_range at capacity read_name is_not_found throw_if_error make_role normalize front back
    to_string
written = refl

roles_from_native-to_native_example :
    (defined : List (ℕ × Bytes)) × (entries native Samples.codes os two_roles ≡ ok defined)
    × (roles_from_native native Samples.codes os two_roles (3 ∷ [])
        ≡ ok (wanted defined (codes "C" ∷ [])))
roles_from_native-to_native_example =
    roles_from_native-to_native native Samples.codes os two_roles (codes "C" ∷ []) (3 ∷ [])
      privileges written

abbrev header : Header
header = record { size = 1; num_names = λ memory. 2 }

abbrev two_names : List Bytes
two_names = codes "A" ∷ codes "B" ∷ []
