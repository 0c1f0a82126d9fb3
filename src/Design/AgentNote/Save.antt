-- ===== src/Design/AgentNote/Save.antt =====
-- src/design/agent.cpp: `save` of an agent, with the calls that it makes, in their order.
use dmn_cpp.Base.{ℕ, ◌%◌, ◌^◌, Bool, true, false, [], ◌∷◌, Option, none, some, Bytes, ◌==◌, Result}
use dmn_cpp.Lmbcs.{Translate}
use dmn_cpp.Cursor.{done, lift}
use dmn_cpp.Value.{convert_double, apply_time}
use dmn_cpp.Traced.{Traced, ◌>>=◌, ◌>>◌, call, silent}
use dmn_cpp.Note.Items.{Native, get_as}
use dmn_cpp.Design.Flags.{lotusscript}
use dmn_cpp.Design.Settings.{set_all}
use dmn_cpp.Design.AgentNote.{Sdk, language_value}

pub data Call : Type 0 where
  compile sign_note update : Call

module _ (sdk : Sdk) (os : Translate) {Items : Type 0} (native : Native Items)
    (hdl : Result ℕ) where
  -- The item of the language as a number, and whether it is that of LotusScript.
  unfoldable pub is_lotusscript : Option Bytes → Bool
  unfolding language_value
  is_lotusscript none = 0 == language_value lotusscript
  is_lotusscript (some eight) = (sdk.int_of eight % 2 ^ 16) == language_value lotusscript

  unfoldable pub compile_if : Bool → Result ℕ → ℕ → Traced Call (Unit {0})
  unfolding call
  compile_if false db status = silent (done tt)
  compile_if true db status = do d ← silent (lift db); h ← silent (lift hdl); call compile status

  -- `answers` gives the statuses, `now` is the version. The note's own `save` is that of Note.Handles.
  unfoldable pub save : (Call → ℕ) → Bytes → Result ℕ → Items → Traced Call Items
  unfolding is_lotusscript compile_if call
  save answers now db items = do
    after ← silent (
        set_all os native hdl
          (record { key = sdk.assist_version; value = apply_time now; flags = [] } ∷ []) items)
    found ← silent (get_as os native hdl convert_double sdk.assist_type after)
    compile_if (is_lotusscript found) db (answers compile)
    h ← silent (lift hdl)
    call sign_note (answers sign_note)
    call update (answers update)
    silent (done after)
