-- ===== src/Design/Settings/Held.antt =====
-- Items that were set in a row are all there.
use dmn_cpp.Base.{ℕ, ◌≡◌, ◌≢◌, ◌∙◌, refl, sym, true, List, [], ◌∷◌, ◌++◌, Bytes, Option, Result, ok}
use dmn_cpp.Lmbcs.{Translate, from_string}
use dmn_cpp.Status.{throw_if_error}
use dmn_cpp.Cursor.{Cursor, Outcome, done, ◌>>=◌}
use dmn_cpp.Cursor.Chains.{>>=-cong, >>=-assoc}
use dmn_cpp.Value.{item_memory, try_as}
use dmn_cpp.Note.Items.{Native, set, get_as, has, item_value}
use dmn_cpp.Note.Fields.{Keeps, IsUnchanged, set_lem}
use dmn_cpp.Design.Settings.{Setting, set_all}

-- A name is none of the settings'.
abbrev pub Apart : Translate → Bytes → List Setting → Type 0
Apart os name [] = Unit {0}
Apart os name (s ∷ ss) = (name ≢ from_string os s.key) × Apart os name ss

-- No two settings have the same name.
abbrev pub AreApart : Translate → List Setting → Type 0
AreApart os [] = Unit {0}
AreApart os (s ∷ ss) = Apart os (from_string os s.key) ss × AreApart os ss

-- The keys are unchanged by the conversion.
abbrev pub AreUnchanged : Translate → List Setting → Type 0
AreUnchanged os [] = Unit {0}
AreUnchanged os (s ∷ ss) = IsUnchanged os s.key × AreUnchanged os ss

module _ (os : Translate) {Items : Type 0} (native : Native Items) where
  -- The item of a setting is there with its value.
  abbrev pub Holds : Items → Setting → Type 0
  Holds items s =
      (native.is_present (from_string os s.key) items ≡ true)
      × ((native.item_info (from_string os s.key) items).memory ≡ item_memory s.value)

  abbrev pub AllHold : Items → List Setting → Type 0
  AllHold items [] = Unit {0}
  AllHold items (s ∷ ss) = Holds items s × AllHold items ss

  -- An item is as it was.
  abbrev pub Same : Items → Items → Bytes → Type 0
  Same items after name =
      (native.is_present name after ≡ native.is_present name items)
      × ((native.item_info name after).memory ≡ (native.item_info name items).memory)

  pub Same-Holds :
      (items after : Items) (s : Setting)
      → Same items after (from_string os s.key)
      → Holds items s
      → Holds after s
  Same-Holds items after s (p, m) (there, memory) = (p ∙ there, m ∙ memory)

  module _ (keeps : Keeps native) (h : ℕ) where
    -- After a run of settings with different names, unchanged by the conversion, all of their items are there with their values, and
    -- the other items are as they were.
    pub set_all_lem :
        (ss : List Setting) (items : Items)
        → AreUnchanged os ss
        → AreApart os ss
        → (after : Items) × (set_all os native (ok h) ss items ≡ done after)
          × AllHold after ss
          × ((name : Bytes) → Apart os name ss → Same items after name)
    unfolding set_all
    set_all_lem [] items unchanged apart = (items, refl, tt, λ name a. (refl, refl))
    set_all_lem (s ∷ ss) items (unchanged, more) (first, others) =
        let (next, e, held) = set_lem os native keeps h s.key s.value s.flags items unchanged in
        let (after, es, all, same) = set_all_lem ss next more others in
        (
          after,
          rw e es,
          (
            Same-Holds next after s (same (from_string os s.key) first) (held.present, held.memory),
            all,
          ),
          λ name apart. (
            (same name apart.1).0 ∙ (held.others name apart.0).0,
            (same name apart.1).1 ∙ (held.others name apart.0).1,
          ),
        )

    -- A held item is converted as the value that was set.
    pub get_as-Holds :
        {A : Type 0} (convert : Cursor → Outcome (Option A)) (s : Setting) (items : Items)
        → IsUnchanged os s.key
        → Holds items s
        → get_as os native (ok h) convert s.key items ≡ try_as convert (item_memory s.value)
    unfolding get_as has item_value throw_if_error
    get_as-Holds convert s items unchanged (there, memory) =
        let there' : native.is_present s.key items ≡ true = rw unchanged at there in
        let memory' : (native.item_info s.key items).memory ≡ item_memory s.value =
          rw unchanged at memory in
        rw (there, keeps.found s.key items there', memory')

pub set_all-append :
    (os : Translate) {Items : Type 0} (native : Native Items) (hdl : Result ℕ)
    (xs ys : List Setting) (items : Items)
    → set_all os native hdl (xs ++ ys) items
      ≡ (set_all os native hdl xs items >>= λ next. set_all os native hdl ys next)
unfolding set_all
set_all-append os native hdl [] ys items = refl
set_all-append os native hdl (x ∷ xs) ys items =
    >>=-cong (set os native hdl x.key x.value x.flags items)
      (λ next. set_all-append os native hdl xs ys next)
    ∙ sym (
        >>=-assoc (set os native hdl x.key x.value x.flags items)
          (λ next. set_all os native hdl xs next) (λ next. set_all os native hdl ys next))
