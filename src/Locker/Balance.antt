-- ===== src/Locker/Balance.antt =====
-- The calls over the life of a locker, exceptions included.
use dmn_cpp.Base.{
  ℕ, ◌+◌, ◌-◌, ◌^◌, ◌≤◌, ◌<◌, ◌≡◌, ◌≢◌, ◌∙◌, ap, refl, false, List, [], ◌∷◌, ◌++◌, append-nil, some,
  Bytes, length, ◌==◌, Error, out_of_range, drop_all, take-all, arith,
}
use dmn_cpp.Status.{Answer, throw_if_error}
use dmn_cpp.Cursor.{done, threw, fault, Cursor, make, write}
use dmn_cpp.Cursor.Bounds.{write_lem}
use dmn_cpp.Locker.{
  Ownership, take_it, borrow, free, Block, Call, lock, unlock, mem_free, Locker, Made, cleanup,
  destroy, lock_block, construct, abandon, measure, construct_all, allocate_impl, fill, allocate,
  is_free, is_borrow,
}

-- What the three modes promise for a pool.
unfoldable pub protocol : Ownership → ℕ → List Call
protocol take_it p = lock p ∷ unlock p ∷ mem_free p ∷ []
protocol borrow p = lock p ∷ unlock p ∷ []
protocol free p = mem_free p ∷ []

-- The calls of a locker that is made and then destroyed.
unfoldable pub lifetime : Made → List Call
unfolding destroy
lifetime (done locker, calls) = calls ++ destroy locker
lifetime (threw e, calls) = calls
lifetime (fault, calls) = calls

-- A locker whose calls so far and cleanup together are the protocol of its pool.
unfoldable pub Kept : Ownership → ℕ → Made → Type 0
unfolding lifetime
Kept own p (fault, calls) = Unit {0}
Kept own p (threw e, calls) = calls ≡ protocol own p
Kept own p (done locker, calls) =
    (calls ++ destroy locker ≡ protocol own p) × (locker.own ≡ own) × (locker.hdl.pool ≡ p)

construct-Kept :
    (bid : Block) (size : ℕ) (own : Ownership) (bytes : Bytes)
    → bid.pool ≢ 0
    → Kept own bid.pool (construct bid size own (some bytes))
unfolding Kept construct destroy lock_block protocol is_free is_borrow cleanup
construct-Kept bid size take_it bytes valid = ground arith
construct-Kept bid size borrow bytes valid = ground arith
construct-Kept bid size free bytes valid = ground arith

abandon-Kept :
    (own : Ownership) (p : ℕ) (e : Error) (locker : Locker) (calls : List Call)
    → Kept own p (done locker, calls)
    → Kept own p (abandon e locker calls)
unfolding Kept abandon
abandon-Kept own p e locker calls (k, same, pool) = k

measure-Kept :
    (own : Ownership) (p : ℕ) (answer : Answer) (bytes : Bytes) (made : Made)
    → Kept own p made
    → Kept own p (measure answer (some bytes) made)
unfolding Kept measure abandon destroy throw_if_error
measure-Kept own p answer bytes (fault, calls) k = tt
measure-Kept own p answer bytes (threw e, calls) k = k
measure-Kept own p answer bytes (done locker, calls) k = ground (arith, k)

Kept-lifetime :
    (own : Ownership) (p : ℕ) (made : Made)
    → Kept own p made
    → made.0 ≢ fault
    → lifetime made ≡ protocol own p
unfolding Kept
Kept-lifetime own p (done locker, calls) k safe = k.0
Kept-lifetime own p (threw e, calls) k safe = k
Kept-lifetime own p (fault, calls) k safe = absurd (safe refl)

construct_all_safe :
    (bid : Block) (own : Ownership) (answer : Answer) (bytes : Bytes)
    → answer.handle - bid.block ≤ length bytes
    → (construct_all bid own answer (some bytes)).0 ≢ fault
unfolding construct_all measure construct lock_block abandon
construct_all_safe bid take_it answer bytes room = ground arith
construct_all_safe bid borrow answer bytes room = ground arith
construct_all_safe bid free answer bytes room = ground arith

-- A locker over a block of a pool that is not null, which the SDK can lock, makes over its life
-- exactly the calls that its ownership promises, whether the constructor throws or returns: to take
-- is to lock, unlock and free once each, in that order, to borrow is to lock and unlock, and to free
-- is only to free. The locked bytes reach as far as the size that the SDK answers.
pub construct_all-protocol :
    (bid : Block) (own : Ownership) (answer : Answer) (bytes : Bytes)
    → bid.pool ≢ 0
    → answer.handle - bid.block ≤ length bytes
    → lifetime (construct_all bid own answer (some bytes)) ≡ protocol own bid.pool
unfolding construct_all
construct_all-protocol bid own answer bytes valid room =
    Kept-lifetime own bid.pool (construct_all bid own answer (some bytes))
      (measure-Kept own bid.pool answer bytes (construct bid 0 own (some bytes))
        (construct-Kept bid 0 own bytes valid))
      (construct_all_safe bid own answer bytes room)

write_all_new :
    (bytes memory : Bytes)
    → length bytes < 2 ^ 32
    → length memory ≡ length bytes
    → write bytes (make memory) ≡ done (record { buffer = bytes; offset = length bytes })
unfolding make
write_all_new bytes memory small same =
    (write_lem bytes (record { buffer = memory; offset = 0 }) small (omega arith)).0
      (omega (arith, same))
    ∙ rw (drop_all (0 + length bytes) memory (omega (arith, same)), append-nil bytes)
        (ap (λ n. done (record { buffer = bytes; offset = n })) (omega arith))

write_empty :
    (bytes : Bytes)
    → bytes ≢ []
    → length bytes < 2 ^ 32
    → write bytes (make []) ≡ threw out_of_range
unfolding make
write_empty [] some_bytes small = absurd (some_bytes refl)
write_empty (b ∷ bytes) some_bytes small =
    (write_lem (b ∷ bytes) (record { buffer = []; offset = 0 }) small (omega arith)).1 (omega arith)

not_empty : (bytes : Bytes) → bytes ≢ [] → (length bytes == 0) ≡ false
not_empty [] some_bytes = absurd (some_bytes refl)
not_empty (b ∷ bytes) some_bytes = ground arith

module _ (n : ℕ) (memory : Bytes) (answer : Answer) (positive : (n == 0) ≡ false)
    (same : length memory ≡ n) (success : answer.status ≡ 0) (valid : answer.handle ≢ 0) where
  pub allocate_impl_locks :
      (own : Ownership)
      → is_free own ≡ false
      → allocate_impl n own answer (some memory) ≡ (
        done (record {
          cursor = make memory;
          size = n;
          own = own;
          hdl = record { pool = answer.handle; block = 0 };
        }),
        lock answer.handle ∷ [],
      )
  unfolding allocate_impl throw_if_error construct lock_block
  allocate_impl_locks own locks = ground (arith, take-all n memory same)

  allocate_impl_free : allocate_impl n free answer (some memory) ≡ (
    done (record {
      cursor = make [];
      size = n;
      own = free;
      hdl = record { pool = answer.handle; block = 0 };
    }),
    [],
  )
  unfolding allocate_impl throw_if_error construct is_free
  allocate_impl_free = ground arith

abandon_free :
    (c : Cursor) (n p : ℕ)
    → p ≢ 0
    → abandon out_of_range
        (record { cursor = c; size = n; own = free; hdl = record { pool = p; block = 0 } })
        []
      ≡ (threw out_of_range, mem_free p ∷ [])
unfolding abandon destroy
abandon_free c n p valid = ground arith

-- Where the SDK allocates as many bytes as are to be copied, not none and less than 4 GiB, and locks
-- them, `allocate` gives a locker whose memory is the bytes, with its offset behind them, if it takes
-- or borrows. With the mode that does not lock it throws out_of_range for every such copy, and the
-- new memory is freed.
pub allocate_lem :
    (bytes memory : Bytes) (answer : Answer)
    → bytes ≢ []
    → length bytes < 2 ^ 32
    → length memory ≡ length bytes
    → answer.status ≡ 0
    → answer.handle ≢ 0
    → ((own : Ownership)
        → is_free own ≡ false
        → allocate bytes own answer (some memory) ≡ (
          done (record {
            cursor = record { buffer = bytes; offset = length bytes };
            size = length bytes;
            own = own;
            hdl = record { pool = answer.handle; block = 0 };
          }),
          lock answer.handle ∷ [],
        ))
      × (allocate bytes free answer (some memory)
          ≡ (threw out_of_range, mem_free answer.handle ∷ []))
unfolding allocate fill
allocate_lem bytes memory answer some_bytes small same success valid = (
  λ own locks. rw (
    allocate_impl_locks (length bytes) memory answer (not_empty bytes some_bytes) same success valid
        own locks,
    fill,
    write_all_new bytes memory small same,
  ),
  rw
      (
        allocate_impl_free (length bytes) memory answer (not_empty bytes some_bytes) same success
            valid,
        fill,
        write_empty bytes some_bytes small,
      )
      (abandon_free (make []) (length bytes) answer.handle valid),
)
