-- ===== src/Lock.antt =====
-- src/note_lock.cpp and include/dmn/note_lock.hpp: the scoped lock of a note. What the native calls
-- answer, and what `database::get_handle` does, are arguments of each operation. A lock that was
-- released is counted in `released`: the native unlock calls that succeeded. `fault` stands for
-- the dereference of an empty optional, which C++ leaves undefined.
pub mod Once
mod Tests
use dmn_cpp.Base.{
  ℕ, suc, Bool, true, false, not, Option, none, some, if◌then◌else◌, Result, ok, err, Error,
  native_error, ◌>>=◌, ◌>>◌, guard,
}
use dmn_cpp.Status.{Codes, is_error, is_locked, throw_if_error}
use dmn_cpp.Cursor.{Outcome, done, fault}

pub record Lock : Type 0 where
  pub owns_lock : Bool
  pub note_id : ℕ

unfoldable pub make : ℕ → Lock
make note_id = record { owns_lock = true; note_id = note_id }

-- Move construction: the new lock, and what is left of the other.
unfoldable pub move_from : Lock → Lock × Lock
move_from other = (other, record { owns_lock = false; note_id = 0 })

-- `get_db_handle`: an exception becomes an empty optional.
unfoldable pub get_db_handle : Result ℕ → Option ℕ
get_db_handle (ok h) = some h
get_db_handle (err e) = none

-- `*db_handle`.
unfoldable pub dereference : Option ℕ → Outcome ℕ
dereference none = fault
dereference (some h) = done h

-- The status of `lock_note`, where SECKFMGetUserName and NSFDbNoteLock answer as given.
unfoldable pub lock_note : ℕ → ℕ → ℕ
unfolding is_error
lock_note user native = if is_error user then user else native

unfoldable pub acquire : Codes → Result ℕ → ℕ → ℕ → ℕ → Result Lock
unfolding lock_note is_locked throw_if_error make
acquire codes db user native note_id = do
  handle ← db
  let result = lock_note user native
  guard (not (is_locked codes result)) (native_error result)
  throw_if_error result
  ok (make note_id)

unfoldable pub try_acquire : Result ℕ → ℕ → ℕ → ℕ → Outcome (Option Lock)
unfolding get_db_handle dereference lock_note is_error make
try_acquire db user native note_id = elim (dereference (get_db_handle db)) [
  | done handle ↦ done (if is_error (lock_note user native) then none else some (make note_id))
  | _ ↦ fault
]

-- `try_unlock`, with the native unlock calls that succeeded counted.
unfoldable pub try_unlock : Result ℕ → ℕ → Lock → ℕ → Outcome (Bool × Lock × ℕ)
unfolding get_db_handle dereference is_error
try_unlock db native lock released =
    if not lock.owns_lock
    then done (true, lock, released)
    else elim (dereference (get_db_handle db)) [
      | done handle ↦
          if is_error native
          then done (false, lock, released)
          else done (true, record lock { owns_lock = false }, suc released)
      | _ ↦ fault
    ]

-- `unlock`; an exception leaves the lock as it was.
unfoldable pub unlock : Result ℕ → ℕ → Lock → ℕ → Result (Lock × ℕ)
unfolding throw_if_error
unlock db native lock released =
    if not lock.owns_lock
    then ok (lock, released)
    else do handle ← db; throw_if_error native; ok (record lock { owns_lock = false }, suc released)
