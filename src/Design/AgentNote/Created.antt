-- ===== src/Design/AgentNote/Created.antt =====
-- What a new agent's note holds.
use dmn_cpp.Base.{ℕ, ◌≡◌, ◌≢◌, true, List, ◌++◌, Bytes}
use dmn_cpp.Lmbcs.{Translate, from_string}
use dmn_cpp.Note.Items.{Native}
use dmn_cpp.Note.Fields.{Keeps}
use dmn_cpp.Design.Settings.{Setting}
use dmn_cpp.Design.Settings.Held.{Same}
use dmn_cpp.Design.AgentNote.{Sdk, first_settings, last_settings}

module _ (sdk : Sdk) (os : Translate) {Items : Type 0} (native : Native Items)
    (keeps : Keeps native) (h : ℕ) where
  abbrev pub settings : Bytes → Bytes → List Setting
  settings title ex = first_settings sdk os title ++ last_settings sdk os ex

  -- What NSFItemAppendObject promises: an item of the name is there, and the other names are as they were.
  abbrev pub Attaches : (Bytes → Items → Items) → Type 0
  Attaches attach =
      (name : Bytes) (items : Items)
      → (native.is_present name (attach name items) ≡ true)
        × ((other : Bytes) → other ≢ name → Same os native items (attach name items) other)

  abbrev pub run_info_name : Bytes
  run_info_name = from_string os sdk.assist_runinfo
