-- ===== src/AttachedObject.antt =====
-- src/detail/attached_object.cpp, and `set_run_info` of src/design/agent.cpp, which uses one. The calls to
-- the SDK are a list, in their order, with the memory that they get; what they answer is an argument,
-- as are the images of the structures. One thread makes all calls.
pub mod Freed
pub mod Appended
mod Tests
use dmn_cpp.Base.{
  ℕ, ◌+◌, true, List, [], ◌∷◌, ◌++◌, map, Option, Bytes, length, ◌==◌, if◌then◌else◌, Result,
  invalid_argument,
}
use dmn_cpp.Handle.{Handle, make_empty}
use dmn_cpp.Handle
use dmn_cpp.Status.{Answer}
use dmn_cpp.Cursor.{Outcome, done, threw, fault, lift, Cursor, write, u16_bytes}
use dmn_cpp.Cursor
use dmn_cpp.Kind.{object, to_underlying}
use dmn_cpp.Traced.{Traced, ◌>>=◌, ◌>>◌, call, silent}
use dmn_cpp.Locker.{Made, Locker, Ownership, take_it, borrow, free, allocate_impl}
use dmn_cpp.Locker

pub data Call : Type 0 where
  alloc_object : ℕ → Call
  realloc_object : ℕ → ℕ → Call
  write_object : ℕ → ℕ → Call
  get_object_size : ℕ → Call
  free_object : ℕ → Call
  append_object : ℕ → Bytes → Call
  memory : Locker.Call → Call

-- An object: the handle of its database, and its own.
pub record Object : Type 0 where
  pub db : Result ℕ
  pub hdl : Handle

-- The constructor.
unfoldable pub make_object : ℕ → Result ℕ → ℕ → Answer → Traced Call Object
unfolding call make_empty
make_object thread db size answer = do
  d ← silent (lift db)
  call (alloc_object size) answer.status
  held ← silent (lift (Handle.put thread answer.handle (make_empty true thread) []))
  silent (done (record { db = db; hdl = held.0 }))

-- The cleanup function, which the destructor calls.
unfoldable pub cleanup : Object → List Call
cleanup o = if o.hdl.hdl == 0 then [] else free_object o.hdl.hdl ∷ []

-- Code that releases the object where it ends well: an exception destroys the object.
unfoldable pub keeping : Object → Traced Call (Unit {0}) → Traced Call (Unit {0})
unfolding cleanup
keeping o (done u, calls) = (done u, calls)
keeping o (threw e, calls) = (threw e, calls ++ cleanup o)
keeping o (fault, calls) = (fault, calls)

-- The same for a locker.
unfoldable pub releasing : Locker → Traced Call (Unit {0}) → Traced Call (Unit {0})
releasing l (done u, calls) = (done u, calls)
releasing l (threw e, calls) = (threw e, calls ++ map memory (Locker.destroy l))
releasing l (fault, calls) = (fault, calls)

-- Code with the locker that a call made.
unfoldable pub using : Made → (Locker → Traced Call (Unit {0})) → Traced Call (Unit {0})
unfolding releasing
using (done l, calls) body = let (r, more) = releasing l (body l) in (r, map memory calls ++ more)
using (threw e, calls) body = (threw e, map memory calls)
using (fault, calls) body = (fault, map memory calls)

unfoldable pub reallocate : ℕ → ℕ → ℕ → Object → Traced Call (Unit {0})
unfolding call
reallocate thread size status o = do
  d ← silent (lift o.db)
  h ← silent (lift (Handle.get thread o.hdl))
  call (realloc_object h size) status

unfoldable pub object_size : ℕ → Answer → Object → Traced Call ℕ
unfolding call
object_size thread answer o = do
  d ← silent (lift o.db)
  h ← silent (lift (Handle.get thread o.hdl))
  call (get_object_size h) answer.status
  silent (done answer.handle)

unfoldable pub check_ownership : Ownership → Outcome (Unit {0})
check_ownership take_it = done tt
check_ownership borrow = threw invalid_argument
check_ownership free = threw invalid_argument

-- `write`, but for the locker's end.
unfoldable pub write_locked : ℕ → ℕ → Object → Locker → Traced Call (Unit {0})
unfolding check_ownership call
write_locked thread status o l = do
  silent (check_ownership l.own)
  d ← silent (lift o.db)
  h ← silent (lift (Handle.get thread o.hdl))
  call (write_object h l.hdl.pool) status

-- `write`, which takes the locker.
unfoldable pub write_object_from : ℕ → ℕ → Object → Locker → Traced Call (Unit {0})
unfolding write_locked releasing
write_object_from thread status o l = releasing l (write_locked thread status o l)

-- What an allocation of memory answers and what its lock gives.
pub record Allocated : Type 0 where
  pub answer : Answer
  pub locked : Option Bytes

unfoldable pub new_memory : ℕ → Allocated → Made
unfolding allocate_impl
new_memory size a = allocate_impl size take_it a.answer a.locked

-- The image of the descriptor of an object.
module _ (descriptor : ℕ → Bytes) (descriptor_size : ℕ) (a : Allocated) where
  unfoldable pub append_locked : Result ℕ → ℕ → ℕ → Locker → Traced Call (Unit {0})
  unfolding call write to_underlying
  append_locked note status h l = do
    typed ← silent (write (u16_bytes (to_underlying object)) l.cursor)
    whole ← silent (write (descriptor h) typed)
    n ← silent (lift note)
    call (append_object l.hdl.pool whole.buffer) status

  unfoldable pub append_to_note : ℕ → Result ℕ → ℕ → Object → Traced Call (Unit {0})
  unfolding new_memory using append_locked
  append_to_note thread note status o = do
    h ← silent (lift (Handle.get thread o.hdl))
    using (new_memory (2 + descriptor_size) a) (append_locked note status h)

-- What the SDK answers to `set_run_info`, and the images of the run's header and entry.
pub record RunInfo : Type 0 where
  pub object : Answer
  pub item : Allocated
  pub append_status : ℕ
  pub run : Allocated
  pub write_status : ℕ
  pub descriptor : ℕ → Bytes
  pub descriptor_size : ℕ
  pub header : Bytes
  pub header_size : ℕ
  pub entry : Bytes
  pub entry_size : ℕ

module _ (info : RunInfo) (thread : ℕ) where
  unfoldable pub write_run : Object → Locker → Traced Call (Unit {0})
  unfolding write write_locked
  write_run o l = do
    headed ← silent (write info.header l.cursor)
    whole ← silent (write info.entry headed)
    write_locked thread info.write_status o (record l { cursor = whole })

  -- `set_run_info` from the object on.
  unfoldable pub fill_object : Result ℕ → Object → Traced Call (Unit {0})
  unfolding append_to_note new_memory using write_run
  fill_object note o = do
    append_to_note info.descriptor info.descriptor_size info.item thread note info.append_status o
    using (new_memory (info.header_size + info.entry_size) info.run) (write_run o)

  unfoldable pub set_run_info : Result ℕ → Result ℕ → Traced Call (Unit {0})
  unfolding make_object keeping fill_object
  set_run_info db note = do
    o ← make_object thread db (info.header_size + info.entry_size) info.object
    keeping o (fill_object note o)
