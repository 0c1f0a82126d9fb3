-- ===== src/Mail.antt =====
-- src/messaging/mail.cpp: the recipients of a mail and its sending. A list is none once its handle was
-- released; an access to it then throws. The lists are those of TextLists, as are the SDK's calls on
-- them; the calls of `send` that the SDK accepted are a list, and what each answers is an argument.
pub mod Sent
mod Tests
use dmn_cpp.Base.{
  ℕ, Bool, true, false, not, ◌||◌, List, [], ◌∷◌, ◌++◌, Option, none, some, Bytes, ◌==◌,
  if◌then◌else◌, Result, ok, err, runtime_error, invalid_handle,
}
use dmn_cpp.Status.{throw_if_error}
use dmn_cpp.Lmbcs.{Translate}
use dmn_cpp.TextLists.{Native, empty, push_back}

pub data Field : Type 0 where
  send_to copy_to blind_copy_to : Field

pub data Header : Type 0 where
  form from subject composed_date posted_date : Header

pub data Call : Type 0 where
  add_recipients : Call
  add_list : Field → Call
  add_header : Header → Call
  transfer : Call

unfoldable pub same_field : Field → Field → Bool
same_field send_to send_to = true
same_field copy_to copy_to = true
same_field blind_copy_to blind_copy_to = true
same_field field other = false

pub record Mail (L : Type 0) : Type 0 where
  pub has_message : Bool
  pub recipients : Option L
  pub lists : Field → Option L

-- What an operation leaves: what it threw, if anything, the mail and the calls so far.
abbrev pub Step : Type 0 → Type 0
Step L = Result (Unit {0}) × Mail L × List Call

module _ {L : Type 0} where
  infixl 5 ◌then_do◌
  -- The code behind a step, which an exception skips.
  abbrev pub ◌then_do◌ : Step L → (Mail L → List Call → Step L) → Step L
  (err e, mail, calls) then_do next = (err e, mail, calls)
  (ok u, mail, calls) then_do next = next mail calls

  unfoldable pub set_list : Field → Option L → Mail L → Mail L
  unfolding same_field
  set_list field l mail = record mail {
    lists = λ other. if same_field field other then l else mail.lists other;
  }

  unfoldable pub asked : Result (Unit {0}) → Call → Mail L → List Call → Step L
  asked (err e) c mail calls = (err e, mail, calls)
  asked (ok u) c mail calls = (ok tt, mail, calls ++ c ∷ [])

  module _ (answers : Call → ℕ) where
    unfoldable pub ask : Call → Mail L → List Call → Step L
    unfolding throw_if_error asked
    ask c mail calls = asked (throw_if_error (answers c)) c mail calls

    unfoldable pub add_headers : List Header → Mail L → List Call → Step L
    unfolding ask
    add_headers [] mail calls = (ok tt, mail, calls)
    add_headers (h ∷ hs) mail calls =
        ask (add_header h) mail calls then_do λ m c. add_headers hs m c

module _ {L : Type 0} (native : Native L) where
  unfoldable pub is_empty : Option L → Result Bool
  unfolding empty
  is_empty none = err invalid_handle
  is_empty (some l) = ok (empty native l)

  module _ (os : Translate) where
    unfoldable pub pushed : Bytes → Option L → Result L
    unfolding push_back
    pushed email none = err invalid_handle
    pushed email (some l) = push_back native os email l

    -- `add_to_list`: the field's list changes even where the recipients' does not.
    unfoldable pub add_to_list : Field → Bytes → Mail L → Result (Unit {0}) × Mail L
    unfolding pushed set_list
    add_to_list field email mail = elim (pushed email (mail.lists field)) [
      | err e ↦ (err e, mail)
      | ok l ↦
          let listed = set_list field (some l) mail in
          elim (pushed email mail.recipients) [
            | err e ↦ (err e, listed)
            | ok r ↦ (ok tt, record listed { recipients = some r })
          ]
    ]

    unfoldable pub add_send_to : Bytes → Mail L → Result (Unit {0}) × Mail L
    unfolding add_to_list
    add_send_to email mail = add_to_list send_to email mail

    unfoldable pub add_copy_to : Bytes → Mail L → Result (Unit {0}) × Mail L
    unfolding add_to_list
    add_copy_to email mail = add_to_list copy_to email mail

    unfoldable pub add_blind_copy_to : Bytes → Mail L → Result (Unit {0}) × Mail L
    unfolding add_to_list
    add_blind_copy_to email mail = add_to_list blind_copy_to email mail

  module _ (answers : Call → ℕ) where
    -- The SDK owns a list that it took.
    unfoldable pub add_unless : Result Bool → Field → Mail L → List Call → Step L
    unfolding ask set_list
    add_unless (err e) field mail calls = (err e, mail, calls)
    add_unless (ok true) field mail calls = (ok tt, mail, calls)
    add_unless (ok false) field mail calls =
        ask answers (add_list field) mail calls then_do λ m c. (ok tt, set_list field none m, c)

    unfoldable pub add_list_item : Field → Mail L → List Call → Step L
    unfolding is_empty add_unless
    add_list_item field mail calls = add_unless (is_empty (mail.lists field)) field mail calls

    -- `send` from the release of the recipients on.
    unfoldable pub send_rest : Mail L → List Call → Step L
    unfolding add_list_item add_headers ask
    send_rest mail calls =
        add_list_item send_to (record mail { recipients = none }) calls then_do λ m₁ c₁.
        add_list_item copy_to m₁ c₁ then_do λ m₂ c₂.
        add_list_item blind_copy_to m₂ c₂ then_do λ m₃ c₃.
        add_headers answers (form ∷ from ∷ subject ∷ composed_date ∷ posted_date ∷ []) m₃ c₃
        then_do λ m₄ c₄. ask answers transfer m₄ c₄

    unfoldable pub send_unless : Result Bool → Mail L → Step L
    unfolding ask send_rest
    send_unless (err e) mail = (err e, mail, [])
    send_unless (ok true) mail = (err runtime_error, mail, [])
    send_unless (ok false) mail =
        if mail.has_message
        then (ask answers add_recipients mail [] then_do λ m c. send_rest m c)
        else (err runtime_error, mail, [])

    unfoldable pub send : Mail L → Step L
    unfolding is_empty send_unless
    send mail = send_unless (is_empty mail.recipients) mail
