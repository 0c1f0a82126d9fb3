-- ===== src/Acl.antt =====
-- include/dmn/acl and src/acl: the access control list of a database. Roles are their normalized
-- names. The native list, its privilege sets and its calls are a parameter, `Native`, as are the
-- SDK's constants; a call gives its status and the list after it. A manager's handle is taken to
-- be there.
pub mod Access
pub mod Role
pub mod RoleMap
pub mod Manager
pub mod Slots
pub mod Privileges
pub mod Stored
pub mod Names
mod Tests
use dmn_cpp.Base.{ℕ, Bool, Option, List, Bytes}

-- What the callback of ACLEnumEntries gets.
pub record RawEntry (Priv : Type 0) : Type 0 where
  pub name : Bytes
  pub access_level : ℕ
  pub privileges : Priv
  pub access_flags : ℕ

pub record Found (Priv : Type 0) : Type 0 where
  pub status : ℕ
  pub access_level : ℕ
  pub privileges : Priv
  pub access_flags : ℕ

pub record Native (Acl Priv : Type 0) : Type 0 where
  pub priv_count : ℕ
  pub bit_priv_count : ℕ
  pub flag_admin_server : ℕ
  pub update_name : ℕ
  pub update_level : ℕ
  pub update_privileges : ℕ
  pub update_flags : ℕ
  pub get_priv_name : Acl → ℕ → ℕ × Bytes
  pub set_priv_name : Acl → ℕ → Bytes → ℕ × Acl
  pub no_priv : Priv
  pub is_priv_set : Priv → ℕ → Bool
  pub set_priv : ℕ → Priv → Priv
  pub lookup_access : Acl → Bytes → Found Priv
  pub enum_entries : Acl → ℕ × List (RawEntry Priv)
  pub add_entry : Acl → Bytes → ℕ → Priv → ℕ → ℕ × Acl
  pub update_entry : Acl → Option Bytes → ℕ → Option Bytes → ℕ → Priv → ℕ → ℕ × Acl
  pub delete_entry : Acl → Bytes → ℕ × Acl
  pub set_admin_server : Acl → Bytes → ℕ × Acl
  pub canonicalize : Bytes → ℕ × Bytes
