-- ===== src/Mail/Sent.antt =====
-- Whose a mail's lists are after `send`, however it ends.
use dmn_cpp.Base.{
  ℕ, ◌≡◌, ◌∙◌, ap, sym, refl, Bool, true, false, ◌||◌, List, [], ◌∷◌, ◌++◌, none, if◌then◌else◌,
  Result, ok, err, runtime_error, arith,
}
use dmn_cpp.Status.{throw_if_error}
use dmn_cpp.TextLists.{Native}
use dmn_cpp.Mail.{
  Field, send_to, copy_to, blind_copy_to, Header, Call, add_recipients, add_list, add_header,
  transfer, form, from, subject, composed_date, posted_date, Mail, Step, ◌then_do◌, is_empty,
  same_field, set_list, asked, ask, add_unless, add_list_item, add_headers, send_rest, send_unless,
  send,
}

-- Whether the SDK took a field's list.
unfoldable pub taken : Field → List Call → Bool
unfolding same_field
taken field [] = false
taken field (add_recipients ∷ calls) = taken field calls
taken field (add_list f ∷ calls) = same_field f field || taken field calls
taken field (add_header h ∷ calls) = taken field calls
taken field (transfer ∷ calls) = taken field calls

taken_header :
    (field : Field) (h : Header) (calls : List Call)
    → taken field (calls ++ add_header h ∷ []) ≡ taken field calls
unfolding taken
taken_header field h [] = refl
taken_header field h (add_recipients ∷ calls) = taken_header field h calls
taken_header field h (add_list f ∷ calls) =
    ap (λ b. same_field f field || b) (taken_header field h calls)
taken_header field h (add_header k ∷ calls) = taken_header field h calls
taken_header field h (transfer ∷ calls) = taken_header field h calls

taken_transfer :
    (field : Field) (calls : List Call) → taken field (calls ++ transfer ∷ []) ≡ taken field calls
unfolding taken
taken_transfer field [] = refl
taken_transfer field (add_recipients ∷ calls) = taken_transfer field calls
taken_transfer field (add_list f ∷ calls) =
    ap (λ b. same_field f field || b) (taken_transfer field calls)
taken_transfer field (add_header k ∷ calls) = taken_transfer field calls
taken_transfer field (transfer ∷ calls) = taken_transfer field calls

taken_list :
    (field f : Field) (calls : List Call)
    → taken field (calls ++ add_list f ∷ []) ≡ (same_field f field || taken field calls)
unfolding taken
taken_list field f [] = refl
taken_list field f (add_recipients ∷ calls) = taken_list field f calls
taken_list field f (add_list g ∷ calls) = ground (arith, taken_list field f calls)
taken_list field f (add_header k ∷ calls) = taken_list field f calls
taken_list field f (transfer ∷ calls) = taken_list field f calls

module _ {L : Type 0} (start : Mail L) where
  -- A field's list is released exactly where the SDK took it.
  abbrev pub Owned : Step L → Type 0
  Owned (r, mail, calls) =
      (field : Field) → mail.lists field ≡ (if taken field calls then none else start.lists field)

  then_do-Owned :
      (step : Step L) (next : Mail L → List Call → Step L)
      → Owned step
      → ((mail : Mail L) (calls : List Call) → Owned (ok tt, mail, calls) → Owned (next mail calls))
      → Owned (step then_do next)
  then_do-Owned (err e, mail, calls) next owned step = owned
  then_do-Owned (ok u, mail, calls) next owned step = step mail calls owned

  module _ (answers : Call → ℕ) where
    asked-Owned :
        (r : Result (Unit {0})) (c : Call) (mail : Mail L) (calls : List Call)
        → ((field : Field) → taken field (calls ++ c ∷ []) ≡ taken field calls)
        → Owned (ok tt, mail, calls)
        → Owned (asked r c mail calls)
    unfolding asked
    asked-Owned (err e) c mail calls same owned = owned
    asked-Owned (ok u) c mail calls same owned = λ field.
        owned field ∙ ap (λ (b : Bool). if b then none else start.lists field) (sym (same field))

    ask-Owned :
        (c : Call) (mail : Mail L) (calls : List Call)
        → ((field : Field) → taken field (calls ++ c ∷ []) ≡ taken field calls)
        → Owned (ok tt, mail, calls)
        → Owned (ask answers c mail calls)
    unfolding ask
    ask-Owned c mail calls same owned =
        asked-Owned (throw_if_error (answers c)) c mail calls same owned

    released-Owned :
        (r : Result (Unit {0})) (field : Field) (mail : Mail L) (calls : List Call)
        → Owned (ok tt, mail, calls)
        → Owned
            (asked r (add_list field) mail calls then_do λ m c. (ok tt, set_list field none m, c))
    unfolding asked set_list
    released-Owned (err e) field mail calls owned = owned
    released-Owned (ok u) field mail calls owned =
        λ other. ground (arith, taken_list other field calls, owned other)

    add_headers-Owned :
        (hs : List Header) (mail : Mail L) (calls : List Call)
        → Owned (ok tt, mail, calls)
        → Owned (add_headers answers hs mail calls)
    unfolding add_headers
    add_headers-Owned [] mail calls owned = owned
    add_headers-Owned (h ∷ hs) mail calls owned =
        then_do-Owned (ask answers (add_header h) mail calls) (λ m c. add_headers answers hs m c)
          (ask-Owned (add_header h) mail calls (λ field. taken_header field h calls) owned)
          (λ m c o. add_headers-Owned hs m c o)

    module _ (native : Native L) where
      add_unless-Owned :
          (r : Result Bool) (field : Field) (mail : Mail L) (calls : List Call)
          → Owned (ok tt, mail, calls)
          → Owned (add_unless native answers r field mail calls)
      unfolding add_unless ask
      add_unless-Owned (err e) field mail calls owned = owned
      add_unless-Owned (ok true) field mail calls owned = owned
      add_unless-Owned (ok false) field mail calls owned =
          released-Owned (throw_if_error (answers (add_list field))) field mail calls owned

      add_list_item-Owned :
          (field : Field) (mail : Mail L) (calls : List Call)
          → Owned (ok tt, mail, calls)
          → Owned (add_list_item native answers field mail calls)
      unfolding add_list_item
      add_list_item-Owned field mail calls owned =
          add_unless-Owned (is_empty native (mail.lists field)) field mail calls owned

      send_rest-Owned :
          (mail : Mail L) (calls : List Call)
          → Owned (ok tt, mail, calls)
          → Owned (send_rest native answers mail calls)
      unfolding send_rest
      send_rest-Owned mail calls owned =
          let headers = form ∷ from ∷ subject ∷ composed_date ∷ posted_date ∷ [] in
          let finish : Mail L → List Call → Step L =
            λ m c. add_headers answers headers m c then_do λ m₁ c₁. ask answers transfer m₁ c₁ in
          let third : Mail L → List Call → Step L =
            λ m c. add_list_item native answers blind_copy_to m c then_do finish in
          let second : Mail L → List Call → Step L =
            λ m c. add_list_item native answers copy_to m c then_do third in
          let first = record mail { recipients = none } in
          let finished : (m : Mail L) (c : List Call) → Owned (ok tt, m, c) → Owned (finish m c) =
            λ m c o.
              then_do-Owned (add_headers answers headers m c) (λ m₁ c₁. ask answers transfer m₁ c₁)
                (add_headers-Owned headers m c o)
                (λ m₁ c₁ o₁. ask-Owned transfer m₁ c₁ (λ field. taken_transfer field c₁) o₁) in
          let third_owned : (m : Mail L) (c : List Call) → Owned (ok tt, m, c) → Owned (third m c) =
            λ m c o.
              then_do-Owned (add_list_item native answers blind_copy_to m c) finish
                (add_list_item-Owned blind_copy_to m c o) finished in
          let second_owned : (m : Mail L) (c : List Call)
              → Owned (ok tt, m, c)
              → Owned (second m c) =
            λ m c o.
              then_do-Owned (add_list_item native answers copy_to m c) third
                (add_list_item-Owned copy_to m c o) third_owned in
          then_do-Owned (add_list_item native answers send_to first calls) second
            (add_list_item-Owned send_to first calls owned) second_owned

      send_message-Owned :
          (b : Bool)
          → Owned (
              if b
              then (ask answers add_recipients start [] then_do λ m c. send_rest native answers m c)
              else (err runtime_error, start, []))
      unfolding taken
      send_message-Owned false = λ field. refl
      send_message-Owned true =
          then_do-Owned (ask answers add_recipients start []) (λ m c. send_rest native answers m c)
            (ask-Owned add_recipients start [] (λ field. refl) (λ field. refl))
            (λ m c o. send_rest-Owned m c o)

      send_unless-Owned : (r : Result Bool) → Owned (send_unless native answers r start)
      unfolding taken send_unless
      send_unless-Owned (err e) = λ field. refl
      send_unless-Owned (ok true) = λ field. refl
      send_unless-Owned (ok false) = send_message-Owned start.has_message

      -- However `send` ends, and whatever the SDK answers, a field's list is released exactly where the
      -- SDK accepted the call that takes it, and else is the one before.
      pub send-Owned :
          (field : Field)
          → (send native answers start).1.lists field
            ≡ (if taken field (send native answers start).2 then none else start.lists field)
      unfolding send
      send-Owned = send_unless-Owned (is_empty native start.recipients)
