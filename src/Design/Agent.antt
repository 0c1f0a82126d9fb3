-- ===== src/Design/Agent.antt =====
-- src/design/agent.cpp: the memory of an agent's action item, which `set_code` makes from LotusScript
-- or a formula, and of its extended action. The images of the structures, with the sizes that the
-- code writes into them, and the allocation are parameters.
pub mod Actions
use dmn_cpp.Base.{ℕ, ◌+◌, ◌%◌, ◌^◌, true, List, [], ◌∷◌, ◌++◌, Bytes, length}
use dmn_cpp.Cast.{checked_cast}
use dmn_cpp.Cursor.{Outcome, done, threw, fault, ◌>>=◌, lift, Cursor, write, u16_bytes}
use dmn_cpp.Kind.{action, lsobject, to_underlying}
use dmn_cpp.Formula.{Native, size, get_cursor}
use dmn_cpp.Design.Format.{Alloc, new_buffer}

-- The action header with its length, a byte; and the headers of the code, with the length of the
-- whole and that of the code.
pub record Ods : Type 0 where
  pub action_header : ℕ → Bytes
  pub lotusscript_header : ℕ → ℕ → Bytes
  pub formula_header : ℕ → ℕ → Bytes
  pub action_header_size : ℕ
  pub lotusscript_header_size : ℕ
  pub formula_header_size : ℕ

module _ (ods : Ods) (alloc : Alloc) where
  unfoldable pub get_action_item_impl : ℕ → ℕ → Outcome Cursor
  unfolding new_buffer write to_underlying
  get_action_item_impl code_size header_size = do
    lock ← new_buffer alloc (ods.action_header_size + header_size + code_size + 2)
    typed ← write (u16_bytes (to_underlying action)) lock
    write (ods.action_header (ods.action_header_size % 2 ^ 8)) typed

  -- `set_code` of LotusScript, up to the value that it sets.
  unfoldable pub lotusscript_item : Bytes → Outcome Bytes
  unfolding checked_cast get_action_item_impl write
  lotusscript_item code = do
    code_size ← lift (checked_cast 16 (length code))
    lock ← get_action_item_impl code_size ods.lotusscript_header_size
    whole ← lift (checked_cast 16 (ods.lotusscript_header_size + code_size))
    headed ← write (ods.lotusscript_header whole code_size) lock
    written ← write code headed
    done written.buffer

  -- `set_code` of a formula, up to the value that it sets: its size is rounded up to an even number,
  -- and its memory is written as it is.
  unfoldable pub formula_item : Native → Bytes → Outcome Bytes
  unfolding size checked_cast get_action_item_impl get_cursor write
  formula_item native code = do
    rounded ← size native true code
    code_size ← lift (checked_cast 16 rounded)
    lock ← get_action_item_impl code_size ods.formula_header_size
    whole ← lift (checked_cast 16 (ods.formula_header_size + code_size))
    headed ← write (ods.formula_header whole code_size) lock
    cursor ← get_cursor native code
    written ← write cursor.buffer headed
    done written.buffer

-- `set_action_ex`, up to the value that it sets.
unfoldable pub action_ex_item : Alloc → Outcome Bytes
unfolding new_buffer write to_underlying
action_ex_item alloc = do
  lock ← new_buffer alloc 4
  written ← write (u16_bytes (to_underlying lsobject)) lock
  done written.buffer
