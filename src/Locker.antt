-- ===== src/Locker.antt =====
-- src/detail/locker.cpp and include/dmn/detail/locker.hpp: a cursor over a block of the SDK's memory,
-- which is locked, freed or both by the locker's ownership. The calls to lock, unlock and free a
-- pool are a list, in their order; what the SDK answers is an argument. The lock of a block gives its
-- bytes from the block's offset to the end of its pool, or null. The thread of the locker's handle
-- is the one that uses it. A pool is null where it is 0.
pub mod Balance
mod Tests
use dmn_cpp.Base.{
  ℕ, zero, suc, ◌+◌, ◌-◌, Bool, true, false, not, List, [], ◌∷◌, ◌++◌, Option, none, some, Bytes,
  length, take, ltb, leb, ◌==◌, if◌then◌else◌, Result, ok, err, Error, invalid_handle,
  invalid_argument,
}
use dmn_cpp.Status.{Answer, throw_if_error}
use dmn_cpp.Cursor.{Outcome, done, threw, fault, Cursor, make, write}

pub data Ownership : Type 0 where
  take_it borrow free : Ownership

-- `block_id`.
pub record Block : Type 0 where
  pub pool : ℕ
  pub block : ℕ

pub data Call : Type 0 where
  lock unlock mem_free : ℕ → Call

pub record Locker : Type 0 where
  pub cursor : Cursor
  pub size : ℕ
  pub own : Ownership
  pub hdl : Block

-- A locker or an exception, after the calls that were made.
abbrev pub Made : Type 0
Made = Outcome Locker × List Call

unfoldable pub is_free : Ownership → Bool
is_free take_it = false
is_free borrow = false
is_free free = true

unfoldable pub is_borrow : Ownership → Bool
is_borrow take_it = false
is_borrow borrow = true
is_borrow free = false

-- The cleanup function of the handle, which the destructor calls.
unfoldable pub cleanup : Ownership → Block → List Call
unfolding is_free is_borrow
cleanup own bid =
    if bid.pool == 0
    then []
    else (if is_free own then [] else unlock bid.pool ∷ [])
      ++ (if is_borrow own then [] else mem_free bid.pool ∷ [])

unfoldable pub destroy : Locker → List Call
unfolding cleanup
destroy locker = cleanup locker.own locker.hdl

-- `release`: the block, and the locker with the null handle.
unfoldable pub release : Locker → Block × Locker
release locker = (locker.hdl, record locker { hdl = record { pool = 0; block = 0 } })

-- The constructor where the lock gave a pointer, from `reset` on. A size beyond the memory makes a
-- span that leaves it.
unfoldable pub lock_block : Block → ℕ → Ownership → Option Bytes → Made
unfolding make
lock_block bid size own none = (threw invalid_handle, lock bid.pool ∷ [])
lock_block bid size own (some bytes) = (
  (if leb size (length bytes)
      then done (record { cursor = make (take size bytes); size = size; own = own; hdl = bid })
      else fault),
  lock bid.pool ∷ [],
)

unfoldable pub construct : Block → ℕ → Ownership → Option Bytes → Made
unfolding lock_block make is_free
construct bid size own locked =
    if bid.pool == 0
    then (threw invalid_handle, [])
    else if is_free own
    then (done (record { cursor = make []; size = size; own = own; hdl = bid }), [])
    else lock_block bid size own locked

-- An exception in a constructor that delegated runs the destructor.
unfoldable pub abandon : Error → Locker → List Call → Made
unfolding destroy
abandon e locker calls = (threw e, calls ++ destroy locker)

-- The rest of the constructor that asks for the size: `answer` is that of `OSMemGetSize`, with the
-- size in place of a handle.
unfoldable pub measure : Answer → Option Bytes → Made → Made
unfolding throw_if_error abandon make is_free
measure answer locked (done locker, calls) = elim (throw_if_error answer.status) [
  | err e ↦ abandon e locker calls
  | ok u ↦
      let rest = answer.handle - locker.hdl.block in
      if ltb answer.handle locker.hdl.block
      then abandon invalid_argument locker calls
      else elim locked [
        | none ↦ (done (record locker { size = rest }), calls)
        | some bytes ↦ (
          (if is_free locker.own
              then done (record locker { size = rest })
              else if leb rest (length bytes)
              then done (record locker { size = rest; cursor = make (take rest bytes) })
              else fault),
          calls,
        )
      ]
]
measure answer locked (threw e, calls) = (threw e, calls)
measure answer locked (fault, calls) = (fault, calls)

unfoldable pub construct_all : Block → Ownership → Answer → Option Bytes → Made
unfolding construct measure
construct_all bid own answer locked = measure answer locked (construct bid 0 own locked)

-- `allocate_impl`, where `OSMemAlloc` answers `answer`.
unfoldable pub allocate_impl : ℕ → Ownership → Answer → Option Bytes → Made
unfolding construct throw_if_error
allocate_impl size own answer locked =
    if size == 0 then (threw invalid_argument, []) else elim (throw_if_error answer.status) [
      | err e ↦ (threw e, [])
      | ok u ↦ construct (record { pool = answer.handle; block = 0 }) size own locked
    ]

-- The write into a new locker: an exception destroys it.
unfoldable pub fill : Bytes → Made → Made
unfolding write abandon
fill bytes (done locker, calls) = elim (write bytes locker.cursor) [
  | done c ↦ (done (record locker { cursor = c }), calls)
  | threw e ↦ abandon e locker calls
  | fault ↦ (fault, calls)
]
fill bytes (threw e, calls) = (threw e, calls)
fill bytes (fault, calls) = (fault, calls)

-- `allocate` of a copy of the bytes.
unfoldable pub allocate : Bytes → Ownership → Answer → Option Bytes → Made
unfolding allocate_impl fill
allocate bytes own answer locked = fill bytes (allocate_impl (length bytes) own answer locked)

unfoldable pub clone : Locker → Answer → Option Bytes → Made
unfolding allocate
clone locker answer locked = allocate locker.cursor.buffer take_it answer locked
