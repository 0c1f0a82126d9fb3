-- ===== src/Pools.antt =====
-- What owns a pool of the SDK's memory: the constructors of value in src/value.cpp, of formula in src/formula.cpp
-- and of list in src/list.cpp, `decompile` of the formula, and the end of each of them. The
-- calls to lock, unlock and free a pool are a list, in their order; what the SDK answers is an
-- argument. A handle of a text list is its pool, and its memory the list.
pub mod Owned
mod Tests
use dmn_cpp.Base.{
  ℕ, Bool, true, false, List, [], ◌∷◌, ◌++◌, map, Option, none, some, Bytes, length, ◌==◌,
  if◌then◌else◌, Result, ok, err, invalid_argument, guard,
}
use dmn_cpp.Status.{Answer, throw_if_error}
use dmn_cpp.Cursor.{Outcome, done, threw, fault, lift, Cursor, bytes_at, u16_of}
use dmn_cpp.Kind.{text_list, to_underlying}
use dmn_cpp.Lmbcs.{Translate, to_string}
use dmn_cpp.Traced.{Traced, ◌>>=◌, ◌>>◌, silent}
use dmn_cpp.Handle.{Handle, make_empty}
use dmn_cpp.Handle
use dmn_cpp.Locker.{
  Ownership, take_it, borrow, free, Block, Call, unlock, mem_free, Locker, Made, construct,
  allocate,
}
use dmn_cpp.Locker
use dmn_cpp.Formula.{Native}
use dmn_cpp.Formula

pub record Value : Type 0 where
  pub hdl : Handle
  pub size : ℕ

-- A handle whose cleanup function is OSMemFree, and its end on the thread that made it.
unfoldable pub own_nothing : ℕ → Handle
unfolding make_empty
own_nothing thread = make_empty true thread

unfoldable pub end_handle : ℕ → Handle → List Call
end_handle thread h = elim (Handle.destroy thread h []) [
  | none ↦ []
  | some closed ↦ map mem_free closed
]

-- A constructor that goes on with a handle which it made: an exception ends the handle.
unfoldable pub constructing : {A : Type 0} → ℕ → Handle → Traced Call A → Traced Call A
unfolding end_handle
constructing thread h (done a, calls) = (done a, calls)
constructing thread h (threw e, calls) = (threw e, calls ++ end_handle thread h)
constructing thread h (fault, calls) = (fault, calls)

-- `hdl_.put(locker.release().pool)`, and the end of the locker.
unfoldable pub take_over : ℕ → Locker → Traced Call Handle
unfolding own_nothing
take_over thread l =
    let (bid, rest) = Locker.release l in
    (do
      held ← silent (lift (Handle.put thread bid.pool (own_nothing thread) []))
      (done (held.0), Locker.destroy rest))

-- The constructor of a value. The locker ends with the call.
unfoldable pub value_of : ℕ → Ownership → Locker → Traced Call Value
unfolding take_over
value_of thread take_it l = do
  h ← take_over thread l
  silent (done (record { hdl = h; size = l.size }))
value_of thread borrow l = (threw invalid_argument, Locker.destroy l)
value_of thread free l = (threw invalid_argument, Locker.destroy l)

unfoldable pub make_value : ℕ → Locker → Traced Call Value
unfolding value_of
make_value thread l = value_of thread l.own l

-- `get_cursor` of a value, where the lock of its pool gives `locked`.
unfoldable pub get_cursor : ℕ → Option Bytes → Value → Traced Call Locker
get_cursor thread locked v = do
  h ← silent (lift (Handle.get thread v.hdl))
  construct (record { pool = h; block = 0 }) v.size borrow locked

-- The constructor of a formula from the bytes of a compiled one.
unfoldable pub make_formula : ℕ → Bytes → Answer → Option Bytes → Traced Call Handle
unfolding take_over
make_formula thread buffer answer locked = do
  l ← allocate buffer take_it answer locked
  take_over thread l

-- The constructor from code: the status of the compiler is tested before that of the call.
unfoldable pub compile : ℕ → Answer → ℕ → Traced Call Handle
unfolding constructing own_nothing throw_if_error
compile thread answer compile_error = do
  h ← silent (lift (Handle.write_data thread answer.handle (own_nothing thread)))
  constructing thread h do
    silent (lift (throw_if_error compile_error))
    silent (lift (throw_if_error answer.status))
    silent (done h)

-- Code with a locker, which ends behind it.
unfoldable pub ending : {A : Type 0} → Locker → Traced Call A → Traced Call A
ending l (done a, calls) = (done a, calls ++ Locker.destroy l)
ending l (threw e, calls) = (threw e, calls ++ Locker.destroy l)
ending l (fault, calls) = (fault, calls)

-- What NSFFormulaDecompile answers on a formula's memory: its status, and the pool of the text with what
-- the lock of it gives.
pub record Text : Type 0 where
  pub answer : Answer
  pub length : ℕ
  pub locked : Option Bytes

unfoldable pub read_text : Translate → Text → Traced Call Bytes
unfolding ending throw_if_error
read_text os t = do
  silent (lift (throw_if_error t.answer.status))
  output ← construct (record { pool = t.answer.handle; block = 0 }) t.length take_it t.locked
  ending output (silent (done (to_string os (output.cursor.buffer))))

-- `decompile` of a formula whose memory is `memory`.
unfoldable pub decompile :
    Translate → Native → ℕ → (Bytes → Bool → Text) → Bool → Handle → Bytes → Traced Call Bytes
unfolding read_text ending Formula.size
decompile os native thread decompiled is_selection_formula hdl memory = do
  h ← silent (lift (Handle.get thread hdl))
  n ← silent (Formula.size native false memory)
  input ← construct (record { pool = h; block = 0 }) n borrow (some memory)
  ending input (read_text os (decompiled input.cursor.buffer is_selection_formula))

-- What both constructors of a list do with the answer: ListAllocate and ListDuplicate lock the
-- memory that they get.
unfoldable pub unlock_if : Option ℕ → List Call
unlock_if none = []
unlock_if (some h) = unlock h ∷ []

unfoldable pub receive : ℕ → Answer → Traced Call Handle
unfolding constructing own_nothing unlock_if throw_if_error
receive thread answer = do
  h ← silent (lift (Handle.write_data thread answer.handle (own_nothing thread)))
  constructing thread h
      do silent (lift (throw_if_error answer.status)); (done h, unlock_if (Handle.try_get thread h))

unfoldable pub duplicate_list : ℕ → Answer → Bytes → Traced Call Handle
unfolding receive bytes_at u16_of to_underlying
duplicate_list thread answer buffer = do
  typ ← silent (bytes_at 0 2 buffer)
  silent (lift (guard (u16_of typ == to_underlying text_list) invalid_argument))
  receive thread answer
