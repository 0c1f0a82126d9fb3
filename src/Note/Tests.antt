-- ===== src/Note/Tests.antt =====
-- Notes at concrete inputs: the items are a function from names to memories.
use dmn_cpp.Base.{
  ℕ, ◌+◌, ◌≡◌, refl, Bool, true, false, List, [], ◌∷◌, none, some, Bytes, ok, arith, if◌then◌else◌,
  ◌==◌,
}
use dmn_cpp.Handle
use dmn_cpp.Handle.{Handle}
use dmn_cpp.Status.{Answer, is_not_found}
use dmn_cpp.Status.Samples.{codes}
use dmn_cpp.Lmbcs.{from_string, to_string}
use dmn_cpp.Cursor.{done, ◌>>=◌}
use dmn_cpp.Value.{convert_string, convert_double, apply_string, apply_double}
use dmn_cpp.Store.{Shared, Store, find, remove_stale, insert, lookup}
use dmn_cpp.Note.Items.{summary, set, get_as}
use dmn_cpp.Note.Fields.{get_as-set}
use dmn_cpp.Note.Handles.{State, save, get_handle, open_new, open_missing}
use dmn_cpp.Note.Saved.{save_created, handle_cached}
use dmn_cpp.Note.Listing.{Walk, walk_items, items}
use dmn_cpp.Note.Listing
use dmn_cpp.Note.Listed.{Chain, first_named, items_lem}
use dmn_cpp.Note.Samples.{os, Fields, native, keeps}

abbrev no_fields : Fields
no_fields = []

abbrev number_field : Fields
number_field = (65 ∷ [], 0 ∷ 3 ∷ []) ∷ []

abbrev eight : Bytes
eight = 1 ∷ 2 ∷ 3 ∷ 4 ∷ 5 ∷ 6 ∷ 7 ∷ 8 ∷ []

get_as-set_example :
    ((set os native (ok 3) (65 ∷ []) (apply_string os (66 ∷ [])) (summary ∷ []) number_field
        >>= λ after. get_as os native (ok 3) (convert_string os) (65 ∷ []) after)
      ≡ done (some (66 ∷ [])))
    × ((set os native (ok 3) (65 ∷ []) (apply_double eight) (summary ∷ []) number_field >>= λ after.
          get_as os native (ok 3) convert_double (65 ∷ []) after)
        ≡ done (some eight))
unfolding to_string from_string
get_as-set_example =
    get_as-set os native keeps 3 (65 ∷ []) (66 ∷ []) eight (summary ∷ []) number_field refl refl
      (omega arith) refl

abbrev alive : ℕ → Bool
alive o = o == 2

abbrev shared : Shared
shared = record { address = 16; object = 2 }

abbrev created : State
created = record { db = ok 1; note_id = 0; hdl = some (Handle.make 9 true 4) }

abbrev on_disk : State
on_disk = record { db = ok 1; note_id = 77; hdl = none }

abbrev empty_store : Store
empty_store = record { entries = []; closed = [] }

abbrev opened : Answer
opened = record { status = 0; handle = 11 }

abbrev missing : Answer
missing = record { status = 0x404; handle = 0 }

save_run :
    save alive 4 shared missing 0 77 created empty_store
    ≡ some (ok tt, on_disk, record { entries = []; closed = 9 ∷ [] })
unfolding Handle.make save
save_run =
    save_created alive 4 shared missing 77 created (Handle.make 9 true 4) empty_store refl refl refl
      (omega arith)

handle_cached_example :
    let after = (get_handle alive 4 shared opened on_disk empty_store).1 in
    get_handle alive 4 shared missing on_disk after ≡ (ok 11, after, false)
unfolding get_handle find remove_stale insert lookup open_new open_missing
handle_cached_example =
    handle_cached alive 4 shared opened missing on_disk 11 empty_store refl refl tt refl

is_plain : is_not_found codes 0 ≡ false
unfolding is_not_found
is_plain = refl

abbrev two_items : Walk
two_items = record {
  first = record { status = 0; handle = 0 };
  next = λ i.
      if i == 0 then record { status = 0; handle = 1 } else record { status = 0x404; handle = 0 };
  name_of = λ i. (65 + i) ∷ [];
}

Chain-two : Chain codes two_items two_items.first (0 ∷ 1 ∷ [])
unfolding Chain is_not_found
Chain-two = (refl, refl, (refl, refl, refl))

items_lem_example :
    (final : List (Bytes × Bytes)) × (items codes os
        (λ key. true)
        (λ name. ok name)
        two_items
        5
        (ok 3)
      ≡ some (ok final))
    × ((key : Bytes)
        → Listing.lookup key final
          ≡ first_named codes os (λ key. true) (λ name. name) two_items is_plain key (0 ∷ 1 ∷ []))
items_lem_example =
    items_lem codes os (λ key. true) (λ name. name) two_items is_plain (λ name. ok name)
      (λ name. refl) 3 5 0 (1 ∷ []) (omega arith) Chain-two

abbrev no_items : Walk
no_items = record {
  first = record { status = 0x222; handle = 0 };
  next = λ i. record { status = 0x222; handle = 0 };
  name_of = λ i. [];
}
