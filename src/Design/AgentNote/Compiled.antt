-- ===== src/Design/AgentNote/Compiled.antt =====
-- Which agents are compiled when they are saved.
use dmn_cpp.Base.{ℕ, ◌≡◌, ◌≢◌, ◌∙◌, refl, [], ◌∷◌, some, Bytes, length, ok, arith}
use dmn_cpp.Lmbcs.{Translate, from_string, to_string}
use dmn_cpp.Cursor.{done}
use dmn_cpp.Value.{convert_double, apply_double, apply_time, item_memory, try_as}
use dmn_cpp.Value.Convert.{try_as-apply}
use dmn_cpp.Traced.{◌>>◌, call, silent}
use dmn_cpp.Formula
use dmn_cpp.Note.Items.{Native}
use dmn_cpp.Note.Fields.{Keeps, IsUnchanged}
use dmn_cpp.Design.Flags.{Language, formula, lotusscript}
use dmn_cpp.Design.Format.{Alloc}
use dmn_cpp.Design.Agent.{Ods, lotusscript_item, formula_item}
use dmn_cpp.Design.Settings.{Setting}
use dmn_cpp.Design.Settings.Held.{
  AreUnchanged, AreApart, Holds, Same-Holds, set_all_lem, get_as-Holds,
}
use dmn_cpp.Design.AgentNote.{Sdk, language_value, code_settings, set_lotusscript, set_formula}
use dmn_cpp.Design.AgentNote.Save.{
  Call, compile, sign_note, update, is_lotusscript, compile_if, save,
}

read_eight :
    (os : Translate) (eight : Bytes)
    → length eight ≡ 8
    → try_as convert_double (item_memory (apply_double eight)) ≡ done (some eight)
unfolding to_string from_string
read_eight os eight e = (try_as-apply os [] eight refl (omega arith) e).1

module _ (sdk : Sdk) (os : Translate) {Items : Type 0} (native : Native Items)
    (keeps : Keeps native) (h : ℕ)
    (apart_version : from_string os sdk.assist_type ≢ from_string os sdk.assist_version) where
  abbrev type_setting : Bytes → Setting
  type_setting eight = record { key = sdk.assist_type; value = apply_double eight; flags = [] }

  -- `save` where the item of the language has eight bytes.
  save_lem :
      (answers : Call → ℕ) (now eight : Bytes) (d : ℕ) (items : Items)
      → length eight ≡ 8
      → IsUnchanged os sdk.assist_type
      → IsUnchanged os sdk.assist_version
      → Holds os native items (type_setting eight)
      → (after : Items) × (save sdk os native (ok h) answers now (ok d) items ≡ (
          compile_if sdk os native
            (ok h)
            (is_lotusscript sdk os native (ok h) (some eight))
            (ok d)
            (answers compile)
          >> (call sign_note (answers sign_note)
              >> (call update (answers update) >> silent (done after)))))
  unfolding save
  save_lem answers now eight d items e type_unchanged unchanged held =
      let version : Setting = record {
        key = sdk.assist_version;
        value = apply_time now;
        flags = [];
      } in
      let (after, set, all, same) =
        set_all_lem os native keeps h (version ∷ []) items (unchanged, tt) (tt, tt) in
      let kept =
        Same-Holds os native items after (type_setting eight)
          (same (from_string os sdk.assist_type) (apart_version, tt)) held in
      let read =
        get_as-Holds os native keeps h convert_double (type_setting eight) after type_unchanged kept
        ∙ read_eight os eight e in
      (after, rw (set, read) refl)

  -- Saving after the code was set: where the SDK's items behave as `Keeps` says, the action item can
  -- be made, the numbers are eight bytes that read back, and the names of the items differ and are
  -- unchanged by the conversion to LMBCS, LotusScript is compiled before the note is signed and
  -- saved, a formula is only signed and saved; a call whose status is an error is the last.
  pub set_code-save :
      (answers : Call → ℕ) (now item memory script code : Bytes) (d : ℕ) (ods : Ods) (alloc : Alloc)
      (formulas : Formula.Native) (items : Items)
      → AreUnchanged os (code_settings sdk os lotusscript [])
      → IsUnchanged os sdk.assist_version
      → AreApart os (code_settings sdk os lotusscript [])
      → ((lang : Language)
          → (length (sdk.double_of (language_value lang)) ≡ 8)
            × (sdk.int_of (sdk.double_of (language_value lang)) ≡ language_value lang))
      → lotusscript_item ods alloc script ≡ done item
      → formula_item ods alloc formulas code ≡ done memory
      → ((set : Items) × (after : Items) × (set_lotusscript sdk os native
              (ok h)
              ods
              alloc
              script
              items
            ≡ done set)
          × (save sdk os native (ok h) answers now (ok d) set ≡ (
              call compile (answers compile)
              >> (call sign_note (answers sign_note)
                  >> (call update (answers update) >> silent (done after))))))
        × ((set : Items) × (after : Items) × (set_formula sdk os native
                (ok h)
                ods
                alloc
                formulas
                code
                items
              ≡ done set)
            × (save sdk os native (ok h) answers now (ok d) set ≡ (
                call sign_note (answers sign_note)
                >> (call update (answers update) >> silent (done after)))))
  unfolding set_lotusscript set_formula code_settings is_lotusscript compile_if language_value
      apply_double
  set_code-save answers now item memory script code d ods alloc formulas items unchanged version
        apart numbers made made_formula =
      let (set, e, all, same) =
        set_all_lem os native keeps h (code_settings sdk os lotusscript item) items unchanged
          apart in
      let (after, saved) =
        save_lem answers now (sdk.double_of 65413) d set (numbers lotusscript).0 (unchanged.1.0)
          version (all.1.0) in
      let (set', e', all', same') =
        set_all_lem os native keeps h (code_settings sdk os formula memory) items unchanged apart in
      let (after', saved') =
        save_lem answers now (sdk.double_of 65412) d set' (numbers formula).0 (unchanged.1.0)
          version (all'.1.0) in
      (
        (set, after, rw made e, rw ((numbers lotusscript).1) at saved),
        (set', after', rw made_formula e', rw ((numbers formula).1) at saved'),
      )
