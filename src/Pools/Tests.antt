-- ===== src/Pools/Tests.antt =====
-- Values, formulas and lists on pools of a few bytes.
use dmn_cpp.Base.{◌≡◌, refl, true, Bool, [], ◌∷◌, some, Bytes, invalid_argument, arith}
use dmn_cpp.Cursor.{done, threw}
use dmn_cpp.Lmbcs.{Translate, to_string}
use dmn_cpp.Handle.{Handle}
use dmn_cpp.Traced.{◌>>=◌}
use dmn_cpp.Locker.{Ownership, take_it, borrow, free, Block, lock, unlock, mem_free, construct}
use dmn_cpp.Formula.{Native}
use dmn_cpp.Pools.{Value, make_value, make_formula, duplicate_list, Text, decompile, get_cursor}
use dmn_cpp.Pools.Owned.{make_value-freed, decompile_lem, lifetime, value_protocol, decompiled_text}
use dmn_cpp.Locker.Balance.{protocol}
use dmn_cpp.Locker
use dmn_cpp.Handle

abbrev pool : Block
pool = record { pool = 7; block = 0 }

abbrev memory : Bytes
memory = 1 ∷ 2 ∷ 3 ∷ []

abbrev os : Translate
os = record { lmbcs_to_utf8 = λ s n. s; utf8_to_lmbcs = λ s n. s }

abbrev native : Native
native = record {
  get_size = λ m. record { status = 0; handle = 3 };
  realloc = λ n m. (0, m);
  summary_item = λ n m. (0, m);
  merge_call = λ n m. (0, m);
}

-- The text is behind the first byte of the memory.
abbrev texts : Bytes → Bool → Text
texts m selection = record {
  answer = record { status = 0; handle = 9 };
  length = 2;
  locked = some (65 ∷ 66 ∷ 67 ∷ []);
}

borrowed_throws :
    make_value 1 (record {
      cursor = record { buffer = memory; offset = 0 };
      size = 3;
      own = borrow;
      hdl = pool;
    })
    ≡ (threw invalid_argument, unlock 7 ∷ [])
unfolding make_value Locker.destroy
borrowed_throws = refl

not_a_list :
    duplicate_list 1 (record { status = 0; handle = 4 }) (0 ∷ 5 ∷ []) ≡ (threw invalid_argument, [])
unfolding duplicate_list
not_a_list = refl

from_bytes :
    lifetime
      (λ (h : Handle). h)
      1
      (make_formula 1 memory (record { status = 0; handle = 7 }) (some (0 ∷ 0 ∷ 0 ∷ [])))
    ≡ lock 7 ∷ mem_free 7 ∷ []
unfolding lifetime make_formula Locker.allocate Locker.release Handle.put Handle.destroy
from_bytes = refl

looked_at :
    (construct pool 3 take_it (some memory) >>= λ l.
    make_value 1 l >>= λ v. get_cursor 1 (some memory) v).1
    ≡ lock 7 ∷ lock 7 ∷ []
unfolding construct make_value get_cursor Handle.put Handle.get Locker.destroy Locker.release
looked_at = refl

make_value-freed_example :
    lifetime (λ (v : Value). v.hdl) 1 (construct pool 3 take_it (some memory) >>= make_value 1)
    ≡ lock 7 ∷ mem_free 7 ∷ []
unfolding value_protocol
make_value-freed_example = make_value-freed 1 3 pool take_it memory (omega arith) (omega arith)

decompile_lem_example :
    decompile os native 1 texts true (record { hdl = 5; cleanup = true; owner = 1 }) memory
    ≡ (done (65 ∷ 66 ∷ []), lock 5 ∷ lock 9 ∷ unlock 9 ∷ mem_free 9 ∷ unlock 5 ∷ [])
unfolding decompiled_text protocol to_string
decompile_lem_example =
    decompile_lem os native 1 5 3 texts true memory (65 ∷ 66 ∷ 67 ∷ []) (omega arith) refl
      (omega arith) (omega arith) refl (omega arith)
