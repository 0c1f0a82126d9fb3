-- ===== src/Design/AgentNote/Tests.antt =====
-- A new agent, and one that is given LotusScript and a formula. The numbers' bytes are the lowest two
-- bytes and six zeros.
use dmn_cpp.Base.{
  ℕ, ◌+◌, ◌%◌, ◌/◌, ◌*◌, ◌≡◌, refl, [], ◌∷◌, some, Bytes, codes, length, replicate, ok,
  runtime_error, native_error,
}
use dmn_cpp.Handle
use dmn_cpp.Status.{throw_if_error}
use dmn_cpp.Status.Samples
use dmn_cpp.Lmbcs.{from_string}
use dmn_cpp.Cursor.{done, threw}
use dmn_cpp.Formula
use dmn_cpp.Locker.{allocate_impl}
use dmn_cpp.Traced.{call}
use dmn_cpp.AttachedObject.{RunInfo}
use dmn_cpp.Note.Listing
use dmn_cpp.Note.Samples.{Fields, native, keeps}
use dmn_cpp.Design.Flags.{Language, formula, lotusscript, java}
use dmn_cpp.Design.Format.{Alloc}
use dmn_cpp.Design.Agent.{Ods, lotusscript_item, formula_item}
use dmn_cpp.Design.Settings.Distinct.{are_apart_sound, differ}
use dmn_cpp.Design.AgentNote.{
  Sdk, language_value, code_settings, create, set_lotusscript, set_formula,
}
use dmn_cpp.Design.AgentNote.Save.{Call, compile, sign_note, update, save}
use dmn_cpp.Design.AgentNote.Compiled.{set_code-save}
use dmn_cpp.Design.Samples.{os}

abbrev number_of : Bytes → ℕ
number_of (a ∷ b ∷ rest) = a + b * 256
number_of _ = 0

abbrev sdk : Sdk
sdk = record {
  field_title = codes "$TITLE";
  design_comment = codes "$Comment";
  design_flags = codes "$Flags";
  assist_flags = codes "$AssistFlags";
  assist_lastrun = codes "$AssistLastRun";
  assist_doccount = codes "$AssistDocCount";
  assist_trigger = codes "$AssistTrigger";
  assist_info = codes "$AssistInfo";
  assist_action = codes "$AssistAction";
  assist_exaction = codes "$AssistAction_Ex";
  assist_type = codes "$AssistType";
  assist_query = codes "$AssistQuery";
  assist_version = codes "$AssistVersion";
  assist_runinfo = codes "$AssistRunInfo";
  flag_enabled = codes "E";
  flag_runassigner = codes "R";
  trigger_image = λ n. n ∷ 0 ∷ [];
  query_image = λ n. n ∷ [];
  query_size = 1;
  double_of = λ n. (n % 256) ∷ (n / 256 % 256) ∷ replicate 6 0;
  int_of = number_of;
}

abbrev alloc : Alloc
alloc n = (record { status = 0; handle = 7 }, some (replicate n 0))

abbrev info : RunInfo
info = record {
  object = record { status = 0; handle = 9 };
  item = record { answer = record { status = 0; handle = 4 }; locked = some (replicate 3 0) };
  append_status = 0;
  run = record { answer = record { status = 0; handle = 6 }; locked = some (replicate 2 0) };
  write_status = 0;
  descriptor = λ h. h ∷ [];
  descriptor_size = 1;
  header = 1 ∷ [];
  header_size = 1;
  entry = 2 ∷ [];
  entry_size = 1;
}

abbrev attach : Bytes → Fields → Fields
attach name fields = (name, 8 ∷ 0 ∷ []) ∷ fields

abbrev empty_note : Fields
empty_note = []

abbrev title : Bytes
title = codes "Nightly"

-- An agent of the same title is there.
existing_lem :
    create sdk os native (ok 3) Samples.codes (ok 1) 0 alloc info attach 2 title empty_note
    ≡ threw runtime_error
unfolding create
existing_lem = refl

abbrev ods : Ods
ods = record {
  action_header = λ n. n ∷ [];
  lotusscript_header = λ n k. n ∷ k ∷ [];
  formula_header = λ n k. n ∷ k ∷ 0 ∷ [];
  action_header_size = 1;
  lotusscript_header_size = 2;
  formula_header_size = 3;
}

abbrev formulas : Formula.Native
formulas = record {
  get_size = λ memory. record { status = 0; handle = length memory };
  realloc = λ n memory. (0, memory);
  summary_item = λ item_name memory. (0, memory);
  merge_call = λ other memory. (0, memory);
}

numbers :
    (lang : Language)
    → (length (sdk.double_of (language_value lang)) ≡ 8)
      × (sdk.int_of (sdk.double_of (language_value lang)) ≡ language_value lang)
unfolding language_value
numbers formula = (refl, refl)
numbers lotusscript = (refl, refl)
numbers java = (refl, refl)

abbrev answers : Call → ℕ
answers compile = 8
answers c = 0

set_code-save_example :
    ((set : Fields) × (after : Fields) × (set_lotusscript sdk os native
          (ok 3)
          ods
          alloc
          (5 ∷ 6 ∷ [])
          empty_note
        ≡ done set)
      × (save sdk os native (ok 3) answers (replicate 8 1) (ok 1) set
          ≡ (threw (native_error 8), compile ∷ [])))
    × ((set : Fields) × (after : Fields) × (set_formula sdk os native
            (ok 3)
            ods
            alloc
            formulas
            (7 ∷ 8 ∷ [])
            empty_note
          ≡ done set)
        × (save sdk os native (ok 3) answers (replicate 8 1) (ok 1) set
            ≡ (done after, sign_note ∷ update ∷ [])))
unfolding lotusscript_item formula_item allocate_impl throw_if_error code_settings from_string call
set_code-save_example =
    set_code-save sdk os native keeps 3
      (differ os (codes "$AssistType") (codes "$AssistVersion") refl) answers (replicate 8 1)
      (16 ∷ 0 ∷ 1 ∷ 4 ∷ 2 ∷ 5 ∷ 6 ∷ []) (16 ∷ 0 ∷ 1 ∷ 5 ∷ 2 ∷ 0 ∷ 7 ∷ 8 ∷ []) (5 ∷ 6 ∷ [])
      (7 ∷ 8 ∷ []) 1 ods alloc formulas empty_note (refl, (refl, (refl, tt))) refl
      (are_apart_sound os (code_settings sdk os lotusscript []) refl) numbers refl refl
