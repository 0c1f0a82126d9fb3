-- ===== src/Pools/Owned.antt =====
-- Who unlocks and frees the memory of values, formulas and lists.
use dmn_cpp.Base.{
  ℕ, ◌≤◌, ◌≡◌, ◌≢◌, ◌∙◌, ap, refl, ok, true, false, Bool, List, [], ◌∷◌, ◌++◌, some, Bytes, length,
  take, ◌==◌, if◌then◌else◌, native_error, arith,
}
use dmn_cpp.Status.{Answer, throw_if_error, is_error}
use dmn_cpp.Cursor.{Outcome, done, threw, fault, make}
use dmn_cpp.Lmbcs.{Translate, to_string}
use dmn_cpp.Traced.{Traced, ◌>>=◌}
use dmn_cpp.Handle.{Handle, make_empty, reset_unchecked, is_owner_thread, check_thread}
use dmn_cpp.Handle
use dmn_cpp.Locker.{
  Ownership, take_it, borrow, free, Block, Call, lock, unlock, mem_free, Locker, construct,
  lock_block, is_free, is_borrow, cleanup,
}
use dmn_cpp.Locker
use dmn_cpp.Locker.Balance.{protocol}
use dmn_cpp.Formula.{Native}
use dmn_cpp.Formula
use dmn_cpp.Pools.{
  Value, own_nothing, end_handle, constructing, take_over, value_of, make_value, compile, ending,
  Text, read_text, decompile, unlock_if, receive,
}

-- The calls over the life of what a constructor makes.
unfoldable pub lifetime : {A : Type 0} → (A → Handle) → ℕ → Traced Call A → List Call
unfolding end_handle
lifetime hdl thread (done a, calls) = calls ++ end_handle thread (hdl a)
lifetime hdl thread (threw e, calls) = calls
lifetime hdl thread (fault, calls) = calls

-- What a value that takes a locker over does to its pool: it frees it, and leaves it locked.
unfoldable pub value_protocol : Ownership → ℕ → List Call
value_protocol take_it p = lock p ∷ mem_free p ∷ []
value_protocol borrow p = lock p ∷ unlock p ∷ []
value_protocol free p = mem_free p ∷ []

end_handle_lem :
    (thread p : ℕ)
    → p ≢ 0
    → end_handle thread (record { hdl = p; cleanup = true; owner = thread }) ≡ mem_free p ∷ []
unfolding end_handle Handle.destroy is_owner_thread reset_unchecked
end_handle_lem thread p there = ground arith

-- A value that is made from a locker over a pool that is not null, no larger than its memory, and then destroyed,
-- frees the pool once where the locker may free it, and leaves it to its owner where the locker borrows; a
-- pool that a locker locked to own it is not unlocked again.
pub make_value-freed :
    (thread size : ℕ) (bid : Block) (own : Ownership) (bytes : Bytes)
    → bid.pool ≢ 0
    → size ≤ length bytes
    → lifetime
        (λ (v : Value). v.hdl)
        thread
        (construct bid size own (some bytes) >>= make_value thread)
      ≡ value_protocol own bid.pool
unfolding lifetime construct lock_block is_free is_borrow make_value value_of take_over own_nothing
    make_empty Locker.release Locker.destroy cleanup Handle.put Handle.reset check_thread
    is_owner_thread reset_unchecked end_handle Handle.destroy value_protocol
make_value-freed thread size bid take_it bytes there fits = ground arith
make_value-freed thread size bid borrow bytes there fits = ground arith
make_value-freed thread size bid free bytes there fits = ground arith

-- Whatever the compiler and the call answer, the pool of a formula that is compiled, and that of a list that is received, is freed
-- once, also where the constructor throws; a list is unlocked before unless its constructor throws.
pub compile-freed :
    (thread compile_error : ℕ) (answer : Answer)
    → answer.handle ≢ 0
    → (lifetime (λ (h : Handle). h) thread (compile thread answer compile_error)
        ≡ mem_free answer.handle ∷ [])
      × (lifetime (λ (h : Handle). h) thread (receive thread answer)
          ≡ (if answer.status == 0 then unlock answer.handle ∷ [] else [])
            ++ mem_free answer.handle ∷ [])
unfolding lifetime compile receive constructing own_nothing make_empty unlock_if throw_if_error
    is_error Handle.write_data Handle.try_get check_thread is_owner_thread reset_unchecked
    end_handle Handle.destroy
compile-freed thread compile_error answer there = (ground arith, ground arith)

-- What `decompile` gives for a text.
unfoldable pub decompiled_text : Translate → Text → Bytes → Outcome Bytes
decompiled_text os t bytes =
    if t.answer.status == 0
    then done (to_string os (take t.length bytes))
    else threw (native_error t.answer.status)

read_text_lem :
    (os : Translate) (t : Text) (bytes : Bytes)
    → t.answer.handle ≢ 0
    → t.locked ≡ some bytes
    → t.length ≤ length bytes
    → read_text os t ≡ (
      decompiled_text os t bytes,
      (if t.answer.status == 0 then protocol take_it t.answer.handle else []),
    )
unfolding read_text ending throw_if_error is_error decompiled_text protocol construct lock_block
    is_free is_borrow make Locker.destroy cleanup
read_text_lem os t bytes there locked fits = ground arith

get_lem :
    (thread h : ℕ)
    → h ≢ 0
    → Handle.get thread (record { hdl = h; cleanup = true; owner = thread }) ≡ ok h
unfolding Handle.get check_thread is_owner_thread
get_lem thread h there = ground arith

size_lem :
    (native : Native) (n : ℕ) (memory : Bytes)
    → native.get_size memory ≡ record { status = 0; handle = n }
    → Formula.size native false memory ≡ done n
unfolding Formula.size throw_if_error is_error
size_lem native n memory sized = rw sized (ap done (omega arith))

input_of : ℕ → ℕ → Bytes → Locker
input_of h n memory = record {
  cursor = make (take n memory);
  size = n;
  own = borrow;
  hdl = record { pool = h; block = 0 };
}

borrow_lem :
    (h n : ℕ) (memory : Bytes)
    → h ≢ 0
    → n ≤ length memory
    → construct (record { pool = h; block = 0 }) n borrow (some memory)
      ≡ (done (input_of h n memory), lock h ∷ [])
unfolding construct lock_block is_free make input_of
borrow_lem h n memory held fits = ground arith

ending_lem :
    (os : Translate) (t : Text) (h n : ℕ) (memory bytes : Bytes) (calls : List Call)
    → h ≢ 0
    → ending (input_of h n memory) (decompiled_text os t bytes, calls)
      ≡ (decompiled_text os t bytes, calls ++ unlock h ∷ [])
unfolding ending decompiled_text Locker.destroy cleanup is_free is_borrow input_of
ending_lem os t h n memory bytes calls held = ground arith

-- `decompile` of a formula that is held by the calling thread, whose size is given and is no more than
-- its memory, where the answer's pool is not null, can be locked and has the length that is answered: it gives the
-- text, or the call's error, and it makes no call but to lock the formula, to lock, unlock and free the
-- text where there is one, and to unlock the formula.
pub decompile_lem :
    (os : Translate) (native : Native) (thread h n : ℕ) (decompiled : Bytes → Bool → Text)
    (selection : Bool) (memory bytes : Bytes)
    → h ≢ 0
    → native.get_size memory ≡ record { status = 0; handle = n }
    → n ≤ length memory
    → (decompiled (take n memory) selection).answer.handle ≢ 0
    → (decompiled (take n memory) selection).locked ≡ some bytes
    → (decompiled (take n memory) selection).length ≤ length bytes
    → let t = decompiled (take n memory) selection in
      decompile os native thread decompiled selection
        (record { hdl = h; cleanup = true; owner = thread })
        memory
      ≡ (
        decompiled_text os t bytes,
        lock h
            ∷ ((if t.answer.status == 0 then protocol take_it t.answer.handle else [])
                ++ unlock h ∷ []),
      )
unfolding decompile input_of make
decompile_lem os native thread h n decompiled selection memory bytes held sized fits there locked
      short =
    let t = decompiled (take n memory) selection in
    let inner =
      ap (ending (input_of h n memory)) (read_text_lem os t bytes there locked short)
      ∙ ending_lem os t h n memory bytes _ held in
    rw
      (
        get_lem thread h held,
        size_lem native n memory sized,
        borrow_lem h n memory held fits,
        inner,
      )
      refl
