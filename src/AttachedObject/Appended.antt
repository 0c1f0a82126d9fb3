-- ===== src/AttachedObject/Appended.antt =====
-- What the SDK gets when an object is appended to a note, and who frees the memory then.
use dmn_cpp.Base.{
  ℕ, ◌+◌, ◌^◌, ◌<◌, ◌≡◌, ◌≢◌, refl, ap, ◌∙◌, [], ◌∷◌, ◌++◌, append-nil, some, Bytes, length,
  length-append, ◌==◌, if◌then◌else◌, ok, arith,
}
use dmn_cpp.Handle.{Handle}
use dmn_cpp.Handle
use dmn_cpp.Status.{throw_if_error}
use dmn_cpp.Cursor.{done, lift, Cursor, make, write, write_all, u16_bytes}
use dmn_cpp.Cursor.Transfer.{write_all-exact, flatten}
use dmn_cpp.Cursor.Chains.{>>=-done}
use dmn_cpp.Kind.{object, to_underlying}
use dmn_cpp.Traced.{call}
use dmn_cpp.Locker.{Locker, take_it, lock, unlock, mem_free}
use dmn_cpp.Locker
use dmn_cpp.Locker.Balance.{allocate_impl_locks}
use dmn_cpp.AttachedObject.{
  append_object, memory, Object, releasing, using, Allocated, new_memory, append_locked,
  append_to_note,
}

-- Two writes that fill a memory, one by one.
two_writes :
    (first second fresh : Bytes)
    → length fresh ≡ length first + length second
    → length fresh < 2 ^ 32
    → (c : Cursor) × (write first (make fresh) ≡ done c)
      × (write second c ≡ done (record { buffer = first ++ second; offset = length fresh }))
unfolding write_all make flatten
two_writes first second fresh e small =
    let whole =
      write_all-exact (first ∷ second ∷ []) fresh
        (rw append-nil (omega (arith, e, length-append first second))) small in
    let (c, one, rest) =
      >>=-done (write first (make fresh)) (λ after. write_all (second ∷ []) after) whole in
    let (c', two, last) = >>=-done (write second c) (λ after. done after) rest in
    (
      c,
      one,
      two
          ∙ last
          ∙ ap (λ b. done (record { buffer = b; offset = length fresh }))
              (ap (λ b. first ++ b) (append-nil second)),
    )

module _ (descriptor : ℕ → Bytes) (descriptor_size : ℕ) (a : Allocated) (thread : ℕ) (o : Object)
    (h n : ℕ) (fresh : Bytes) (held : Handle.get thread o.hdl ≡ ok h)
    (image : length (descriptor h) ≡ descriptor_size) (small : 2 + descriptor_size < 2 ^ 32)
    (success : a.answer.status ≡ 0) (valid : a.answer.handle ≢ 0) (locked : a.locked ≡ some fresh)
    (room : length fresh ≡ 2 + descriptor_size) where
  abbrev item : Bytes
  item = u16_bytes (to_underlying object) ++ descriptor h

  append_locked_lem :
      (status : ℕ)
      → append_locked descriptor descriptor_size a (ok n) status h (record {
        cursor = make fresh;
        size = 2 + descriptor_size;
        own = take_it;
        hdl = record { pool = a.answer.handle; block = 0 };
      })
        ≡ call (append_object a.answer.handle item) status
  unfolding append_locked
  append_locked_lem status =
      let (c, one, two) =
        two_writes (u16_bytes (to_underlying object)) (descriptor h) fresh
          (omega (arith, room, image)) (omega (arith, room, small)) in
      rw one (rw two refl)

  new_memory_lem : new_memory (2 + descriptor_size) a ≡ (
    done (record {
      cursor = make fresh;
      size = 2 + descriptor_size;
      own = take_it;
      hdl = record { pool = a.answer.handle; block = 0 };
    }),
    lock a.answer.handle ∷ [],
  )
  unfolding new_memory
  new_memory_lem =
      ap (λ m. Locker.allocate_impl (2 + descriptor_size) take_it a.answer m) locked
      ∙ allocate_impl_locks (2 + descriptor_size) fresh a.answer (ground arith) room success valid
          take_it refl

  -- Where the object is there, the note is open and the SDK allocates the memory, the SDK gets the type
  -- and the descriptor of the object, not one byte more. The memory stays locked with the SDK where it
  -- takes it; where it refuses it, it is unlocked and freed, and the status is thrown.
  pub append_to_note_lem :
      (status : ℕ)
      → append_to_note descriptor descriptor_size a thread (ok n) status o ≡ (
        lift (throw_if_error status),
        memory (lock a.answer.handle)
            ∷ append_object a.answer.handle item
            ∷ (if status == 0
                then []
                else memory (unlock a.answer.handle) ∷ memory (mem_free a.answer.handle) ∷ []),
      )
  unfolding append_to_note using releasing call throw_if_error Locker.destroy
  append_to_note_lem status =
      rw held (rw new_memory_lem (rw (append_locked_lem status) (ground arith)))
