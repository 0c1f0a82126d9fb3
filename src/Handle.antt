-- ===== src/Handle.antt =====
-- include/dmn/detail/scoped_handle.hpp: a native handle with one owner, its cleanup function and
-- the thread that made it. The null handle is 0. The cleanup function is known only by whether
-- there is one; the calls it gets are appended to `closed`. A thread is a number, and each
-- operation takes the one that runs it. A std::function that was moved from is empty.
pub mod Ownership
pub mod Threads
mod Tests
use dmn_cpp.Base.{
  ℕ, Bool, true, false, not, ◌&&◌, List, [], ◌∷◌, ◌++◌, Option, none, some, ◌==◌, if◌then◌else◌,
  Result, ok, err, invalid_handle, thread_access_error, ◌>>=◌, ◌>>◌, guard,
}

pub record Handle : Type 0 where
  pub hdl : ℕ
  pub cleanup : Bool
  pub owner : ℕ

-- The handles that cleanup functions were called with, in order.
abbrev pub Closed : Type 0
Closed = List ℕ

unfoldable pub make_empty : Bool → ℕ → Handle
make_empty fn thread = record { hdl = 0; cleanup = fn; owner = thread }

unfoldable pub make : ℕ → Bool → ℕ → Handle
make handle fn thread = record { hdl = handle; cleanup = fn; owner = thread }

unfoldable pub is_set : Handle → Bool
is_set h = not (h.hdl == 0)

unfoldable pub is_owner_thread : ℕ → Handle → Bool
is_owner_thread thread h = h.owner == thread

unfoldable pub check_thread : ℕ → Handle → Result (Unit {0})
unfolding is_owner_thread
check_thread thread h = guard (is_owner_thread thread h) thread_access_error

unfoldable pub reset_unchecked : Handle → Closed → Handle × Closed
reset_unchecked h closed =
    if h.cleanup && not (h.hdl == 0)
    then (record h { hdl = 0 }, closed ++ h.hdl ∷ [])
    else (h, closed)

-- The destructor; `none` is std::terminate.
unfoldable pub destroy : ℕ → Handle → Closed → Option Closed
unfolding is_owner_thread reset_unchecked
destroy thread h closed =
    if not (is_owner_thread thread h) then none else some (reset_unchecked h closed).1

-- Move construction: the new handle, and what is left of the other.
unfoldable pub move_from : Handle → Handle × Handle
move_from other = (other, record other { hdl = 0; cleanup = false })

-- Move assignment from another object; `none` is std::terminate.
unfoldable pub move_assign : ℕ → Handle → Handle → Closed → Option ((Handle × Handle) × Closed)
unfolding is_owner_thread reset_unchecked move_from
move_assign thread h other closed =
    if not (is_owner_thread thread h)
    then none
    else some (move_from other, (reset_unchecked h closed).1)

unfoldable pub release : ℕ → Handle → Result (ℕ × Handle)
unfolding check_thread
release thread h = do check_thread thread h; ok (h.hdl, record h { hdl = 0 })

unfoldable pub reset : ℕ → Handle → Closed → Result (Handle × Closed)
unfolding check_thread reset_unchecked
reset thread h closed = do check_thread thread h; ok (reset_unchecked h closed)

unfoldable pub put : ℕ → ℕ → Handle → Closed → Result (Handle × Closed)
unfolding check_thread reset
put thread handle h closed = do
  check_thread thread h
  cleared ← reset thread h closed
  ok (record (cleared.0) { hdl = handle }, cleared.1)

-- A native call that writes its result through the pointer that `data()` gives.
unfoldable pub write_data : ℕ → ℕ → Handle → Result Handle
unfolding check_thread
write_data thread value h = do check_thread thread h; ok (record h { hdl = value })

unfoldable pub get : ℕ → Handle → Result ℕ
unfolding check_thread
get thread h = do check_thread thread h; guard (not (h.hdl == 0)) invalid_handle; ok h.hdl

unfoldable pub try_get : ℕ → Handle → Option ℕ
unfolding is_owner_thread
try_get thread h =
    if h.hdl == 0 then none else if not (is_owner_thread thread h) then none else some h.hdl
