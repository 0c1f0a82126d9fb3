-- ===== src/Design/AgentNote.antt =====
-- src/design/agent.cpp: the items on the note of an agent. The names of the items, the images of the
-- structures and the numbers' bytes are parameters; `hdl` is what the note's `get_handle` gives. The
-- class of a new note, which is set before its items, is not modelled.
pub mod Save
pub mod Compiled
pub mod Created
mod Tests
use dmn_cpp.Base.{
  ℕ, ◌+◌, ◌%◌, ◌^◌, Bool, true, false, List, [], ◌∷◌, ◌++◌, Bytes, codes, decimal, replicate, ◌==◌,
  if◌then◌else◌, Result, ok, err,
}
use dmn_cpp.Status.{Codes, throw_if_error}
use dmn_cpp.Kind.{action, lsobject, assistant_info, query}
use dmn_cpp.Lmbcs.{Translate, from_string}
use dmn_cpp.Cursor.{Outcome, done, threw, ◌>>=◌, ◌>>◌, lift}
use dmn_cpp.Value.{
  convert_string, convert_double, apply_string, apply_double, apply_time, value_or_empty,
}
use dmn_cpp.AttachedObject.{RunInfo, set_run_info}
use dmn_cpp.Formula
use dmn_cpp.Note.Items.{Native, sign, get_as}
use dmn_cpp.Design.Flags.{Language, formula, lotusscript, java, from_language}
use dmn_cpp.Design.Flags
use dmn_cpp.Design.Format.{Alloc}
use dmn_cpp.Design.Agent.{Ods, lotusscript_item, formula_item, action_ex_item}
use dmn_cpp.Design.Settings.{Setting, set_all, check_absent, apply_value}

pub data Trigger : Type 0 where
  none scheduled newmail pasted manual docupdate synchnewmail event serverstart : Trigger

unfoldable pub trigger_value : Trigger → ℕ
trigger_value none = 0
trigger_value scheduled = 1
trigger_value newmail = 2
trigger_value pasted = 3
trigger_value manual = 4
trigger_value docupdate = 5
trigger_value synchnewmail = 6
trigger_value event = 7
trigger_value serverstart = 8

unfoldable pub language_value : Language → ℕ
language_value formula = 65412
language_value lotusscript = 65413
language_value java = 65427

-- The SDK's names of items and flags, the images of ODS_ASSISTSTRUCT for a trigger and of CDQUERYHEADER
-- for its length, and a number as the bytes of a double and back.
pub record Sdk : Type 0 where
  pub field_title : Bytes
  pub design_comment : Bytes
  pub design_flags : Bytes
  pub assist_flags : Bytes
  pub assist_lastrun : Bytes
  pub assist_doccount : Bytes
  pub assist_trigger : Bytes
  pub assist_info : Bytes
  pub assist_action : Bytes
  pub assist_exaction : Bytes
  pub assist_type : Bytes
  pub assist_query : Bytes
  pub assist_version : Bytes
  pub assist_runinfo : Bytes
  pub flag_enabled : Bytes
  pub flag_runassigner : Bytes
  pub trigger_image : ℕ → Bytes
  pub query_image : ℕ → Bytes
  pub query_size : ℕ
  pub double_of : ℕ → Bytes
  pub int_of : Bytes → ℕ

module _ (sdk : Sdk) (os : Translate) where
  abbrev pub title_setting : Bytes → Setting
  title_setting title = record {
    key = sdk.field_title;
    value = apply_string os title;
    flags = sign ∷ [];
  }

  abbrev pub comment_setting : Bytes → Setting
  comment_setting comment = record {
    key = sdk.design_comment;
    value = apply_string os comment;
    flags = sign ∷ [];
  }

  -- The sets of `set_trigger`.
  unfoldable pub trigger_settings : Trigger → List Setting
  unfolding trigger_value
  trigger_settings trig =
      record {
        key = sdk.assist_trigger;
        value = apply_string os (decimal (trigger_value trig));
        flags = [];
      }
      ∷ record {
        key = sdk.assist_info;
        value = (assistant_info, sdk.trigger_image (trigger_value trig));
        flags = sign ∷ [];
      }
      ∷ []

  -- The sets of `set_code`, for the action item's memory.
  unfoldable pub code_settings : Language → Bytes → List Setting
  unfolding apply_value language_value
  code_settings lang item =
      record { key = sdk.assist_action; value = apply_value action item; flags = sign ∷ [] }
      ∷ record {
        key = sdk.assist_type;
        value = apply_double (sdk.double_of (language_value lang));
        flags = sign ∷ [];
      }
      ∷ record {
        key = sdk.design_flags;
        value = apply_string os (Flags.to_string (from_language lang));
        flags = [];
      }
      ∷ []

  -- The sets of `create` up to `set_trigger`.
  unfoldable pub first_settings : Bytes → List Setting
  unfolding trigger_settings
  first_settings title =
      record {
        key = sdk.assist_flags;
        value = apply_string os (sdk.flag_enabled ++ sdk.flag_runassigner);
        flags = sign ∷ [];
      }
      ∷ record { key = sdk.assist_lastrun; value = apply_time (replicate 8 0); flags = sign ∷ [] }
      ∷ record {
        key = sdk.assist_doccount;
        value = apply_double (sdk.double_of 0);
        flags = sign ∷ [];
      }
      ∷ record { key = codes "$Generator"; value = apply_string os (codes "dmn-cpp"); flags = [] }
      ∷ title_setting title
      ∷ comment_setting []
      ∷ trigger_settings none

  -- The sets of `set_action_ex` and `set_assist_query`.
  unfoldable pub last_settings : Bytes → List Setting
  unfolding apply_value
  last_settings ex =
      record { key = sdk.assist_exaction; value = apply_value lsobject ex; flags = sign ∷ [] }
      ∷ record {
        key = sdk.assist_query;
        value = (query, sdk.query_image (sdk.query_size % 2 ^ 8));
        flags = sign ∷ [];
      }
      ∷ []

module _ (sdk : Sdk) (os : Translate) {Items : Type 0} (native : Native Items)
    (hdl : Result ℕ) where
  unfoldable pub set_title : Bytes → Items → Outcome Items
  set_title title items = set_all os native hdl (title_setting sdk os title ∷ []) items

  unfoldable pub set_comment : Bytes → Items → Outcome Items
  set_comment comment items = set_all os native hdl (comment_setting sdk os comment ∷ []) items

  unfoldable pub set_trigger : Trigger → Items → Outcome Items
  unfolding trigger_settings
  set_trigger trig items = set_all os native hdl (trigger_settings sdk os trig) items

  unfoldable pub set_lotusscript : Ods → Alloc → Bytes → Items → Outcome Items
  unfolding lotusscript_item code_settings
  set_lotusscript ods alloc code items = do
    item ← lotusscript_item ods alloc code
    set_all os native hdl (code_settings sdk os lotusscript item) items

  unfoldable pub set_formula : Ods → Alloc → Formula.Native → Bytes → Items → Outcome Items
  unfolding formula_item code_settings
  set_formula ods alloc formulas code items = do
    item ← formula_item ods alloc formulas code
    set_all os native hdl (code_settings sdk os formula item) items

  unfoldable pub get_title : Items → Outcome Bytes
  get_title items = do
    found ← get_as os native hdl (convert_string os) sdk.field_title items
    done (value_or_empty found)

  unfoldable pub get_comment : Items → Outcome Bytes
  get_comment items = do
    found ← get_as os native hdl (convert_string os) sdk.design_comment items
    done (value_or_empty found)

  -- `create` from the new note on, up to `set_run_info`.
  unfoldable pub fill_agent : Alloc → Bytes → Items → Outcome Items
  unfolding first_settings action_ex_item last_settings
  fill_agent alloc title items = do
    begun ← set_all os native hdl (first_settings sdk os title) items
    ex ← action_ex_item alloc
    set_all os native hdl (last_settings sdk os ex) begun

  -- `create`, where `status` is that of the search for an agent of the same title. `set_run_info` makes its
  -- calls, and where it throws nothing NSFItemAppendObject has appended the item of the object, which
  -- `attach` does for its converted name.
  unfoldable pub create :
      Codes
      → Result ℕ
      → ℕ
      → Alloc
      → RunInfo
      → (Bytes → Items → Items)
      → ℕ
      → Bytes
      → Items
      → Outcome Items
  unfolding check_absent fill_agent set_run_info
  create c db status alloc info attach thread title items = do
    check_absent c db status
    h ← lift hdl
    filled ← fill_agent alloc title items
    (set_run_info info thread db hdl).0 >> done (attach (from_string os sdk.assist_runinfo) filled)
