-- ===== src/Acl/Stored.antt =====
-- src/acl/manager.cpp: reading, creating and storing an access control list, and its administration
-- server; and `get_access` of src/database.cpp. The SDK's answers are arguments; MAXUSERNAME, which a
-- name's buffer has, is one too. The list's handle is kept in Handle.
pub mod Saves
mod Tests
use dmn_cpp.Base.{
  ℕ, Bool, true, false, List, [], ◌∷◌, Bytes, take, length, ◌-◌, ◌++◌, replicate, ◌==◌, not,
  if◌then◌else◌, Result, ok, err, invalid_argument, guard, ◌>>=◌, ◌>>◌,
}
use dmn_cpp.Handle.{Handle, make, make_empty, write_data, release}
use dmn_cpp.Handle
use dmn_cpp.Status.{Answer, throw_if_error}
use dmn_cpp.Lmbcs.{Translate, to_string}

pub record Manager : Type 0 where
  pub db : Result ℕ
  pub hdl : Handle
  pub newly_created : Bool

-- A call that writes the list's handle, and the manager that owns it then.
unfoldable pub manage : ℕ → Result ℕ → Bool → Answer → Result Manager
unfolding write_data make_empty release throw_if_error make
manage thread db created answer = do
  filled ← write_data thread answer.handle (make_empty true thread)
  throw_if_error answer.status
  taken ← release thread filled
  ok (record { db = db; hdl = make (taken.0) true thread; newly_created = created })

unfoldable pub read : ℕ → Result ℕ → Answer → Result Manager
unfolding manage
read thread db answer = do d ← db; manage thread db false answer

unfoldable pub create : ℕ → Result ℕ → Answer → Result Manager
unfolding manage
create thread db answer = manage thread db true answer

-- `save`: what it throws, the manager, and the flags that NSFDbStoreACL was called with, which answers
-- `status`.
unfoldable pub stored :
    Result (Unit {0}) → Manager → List Bool → Result (Unit {0}) × Manager × List Bool
stored (err e) m calls = (err e, m, calls)
stored (ok u) m calls = (ok tt, record m { newly_created = false }, calls)

unfoldable pub store_with : Result ℕ → ℕ → Manager → Result (Unit {0}) × Manager × List Bool
unfolding stored throw_if_error
store_with (err e) status m = (err e, m, [])
store_with (ok h) status m = stored (throw_if_error status) m (m.newly_created ∷ [])

unfoldable pub save : ℕ → ℕ → Manager → Result (Unit {0}) × Manager × List Bool
unfolding store_with
save thread status m = store_with (do d ← m.db; Handle.get thread m.hdl) status m

-- `admin_server`, where ACLGetAdminServer leaves `buffer` in the string of MAXUSERNAME bytes.
unfoldable pub admin_server : Translate → ℕ → ℕ → Bytes → Manager → Result Bytes
unfolding throw_if_error
admin_server os thread status buffer m = do
  h ← Handle.get thread m.hdl
  throw_if_error status
  ok (to_string os buffer)

-- `get_access` of a database, for a names list of so many names; `lookup` is the manager's.
unfoldable pub get_access :
    {A : Type 0} → ℕ → ℕ → Result ℕ → Answer → (Manager → Result A) → Result A
unfolding read
get_access size thread db answer lookup = do
  guard (not (size == 0)) invalid_argument
  m ← read thread db answer
  lookup m
