-- ===== src/Mail/Tests.antt =====
-- Two mails: one sent to an address with no copies, and one whose transfer the SDK refuses.
use dmn_cpp.Base.{
  ℕ, ◌≡◌, refl, true, List, [], ◌∷◌, none, some, Bytes, codes, length, ok, err, runtime_error,
}
use dmn_cpp.Status.{throw_if_error}
use dmn_cpp.Lmbcs.{Translate, from_string}
use dmn_cpp.TextLists.{Native, empty, push_back, size}
use dmn_cpp.Mail.{
  send_to, Call, transfer, Mail, same_field, set_list, is_empty, add_send_to, add_to_list, pushed,
  asked, ask, add_headers, add_unless, add_list_item, send_rest, send_unless, send,
}
use dmn_cpp.Mail.Sent.{taken, send-Owned}

abbrev os : Translate
os = record { lmbcs_to_utf8 = λ s n. s; utf8_to_lmbcs = λ s n. s }

abbrev native : Native (List Bytes)
native = record {
  num_entries = length;
  get_text = λ l i. (1, []);
  add_entry = λ l i b. (0, b ∷ l);
  remove_entry = λ l i. (1, l);
  remove_all = λ l. (0, []);
}

abbrev draft : Mail (List Bytes)
draft = record { has_message = true; recipients = some []; lists = λ f. some [] }

abbrev addressed : Mail (List Bytes)
addressed = record {
  has_message = true;
  recipients = some (codes "a" ∷ []);
  lists = elim [ send_to ↦ some (codes "a" ∷ []) | f ↦ some [] ];
}

addressed_lem : (add_send_to native os (codes "a") draft).1.recipients ≡ addressed.recipients
unfolding add_send_to add_to_list pushed set_list same_field push_back size from_string
    throw_if_error
addressed_lem = refl

draft_lem : (send native (λ c. 0) draft).0 ≡ err runtime_error
unfolding send send_unless is_empty empty size
draft_lem = refl

sent_lem : (send native (λ c. 0) addressed).0 ≡ ok tt
unfolding send send_unless send_rest is_empty empty size ask asked add_headers add_list_item
    add_unless set_list same_field throw_if_error
sent_lem = refl

-- The SDK keeps the address list, although it refuses the transfer.
abbrev refuses : Call → ℕ
refuses transfer = 1
refuses c = 0

send-Owned_example : (send native refuses addressed).1.lists send_to ≡ none
unfolding send send_unless send_rest is_empty empty size ask asked add_headers add_list_item
    add_unless set_list same_field throw_if_error taken
send-Owned_example = send-Owned addressed refuses native send_to
