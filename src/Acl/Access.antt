-- ===== src/Acl/Access.antt =====
-- include/dmn/acl/access.hpp, flag.hpp and entry.hpp: an access level with roles and flags. A level is
-- its number, of a uint8_t; flags are a uint16_t.
use Prim.Native.Nat.{bit_and, bit_or}
use dmn_cpp.Base.{
  ℕ, Bool, false, not, ◌||◌, List, [], ◌∷◌, ◌++◌, Bytes, bytes_eq, ◌==◌, if◌then◌else◌,
}

pub data Flag : Type 0 where
  author_no_create no_delete create_personal_agent create_personal_folder create_folder
        create_lotusscript :
      Flag
  public_reader public_writer monitors_disallowed no_replicate : Flag

unfoldable pub flag_value : Flag → ℕ
flag_value author_no_create = 0x0001
flag_value no_delete = 0x0004
flag_value create_personal_agent = 0x0008
flag_value create_personal_folder = 0x0010
flag_value create_folder = 0x0080
flag_value create_lotusscript = 0x0100
flag_value public_reader = 0x0200
flag_value public_writer = 0x0400
flag_value monitors_disallowed = 0x0800
flag_value no_replicate = 0x1000

pub data PrincipalType : Type 0 where
  unspecified server person group : PrincipalType

unfoldable pub principal_value : PrincipalType → ℕ
principal_value unspecified = 0x0000
principal_value server = 0x0002
principal_value person = 0x0020
principal_value group = 0x0040

-- `flags(values...)`.
unfoldable pub flags_from : ℕ → List Flag → ℕ
unfolding flag_value
flags_from n [] = n
flags_from n (f ∷ fs) = flags_from (bit_or n (flag_value f)) fs

pub record Access : Type 0 where
  pub level : ℕ
  pub roles : List Bytes
  pub flags : ℕ

unfoldable pub add_flag : Flag → Access → Access
unfolding flag_value
add_flag value a = record a { flags = bit_or a.flags (flag_value value) }

unfoldable pub has_flag : Flag → Access → Bool
unfolding flag_value
has_flag value a = not (bit_and a.flags (flag_value value) == 0)

-- `std::ranges::find(roles, wanted) != roles.end()`.
unfoldable pub contains : Bytes → List Bytes → Bool
contains wanted [] = false
contains wanted (r ∷ rs) = bytes_eq r wanted || contains wanted rs

unfoldable pub has_role : Bytes → Access → Bool
has_role wanted a = contains wanted a.roles

unfoldable pub add_role : Bytes → Access → Access
unfolding has_role
add_role value a = if has_role value a then a else record a { roles = a.roles ++ value ∷ [] }

pub data Argument : Type 0 where
  flag : Flag → Argument
  role : Bytes → Argument

-- The constructor: its arguments are added from left to right.
unfoldable pub add_arguments : List Argument → Access → Access
unfolding add_flag add_role
add_arguments [] a = a
add_arguments (flag f ∷ rest) a = add_arguments rest (add_flag f a)
add_arguments (role r ∷ rest) a = add_arguments rest (add_role r a)

unfoldable pub make_access : ℕ → List Argument → Access
unfolding add_arguments
make_access level arguments =
    add_arguments arguments (record { level = level; roles = []; flags = 0 })

-- An entry, apart from its manager. A principal type is its number: read_entry makes it of any bits.
pub record Entry : Type 0 where
  pub name : Bytes
  pub access : Access
  pub principal : ℕ
  pub administration_server : Bool
