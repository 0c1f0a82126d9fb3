-- ===== src/ItemValue/Tests.antt =====
-- Two items of one name, at blocks 1 and 2.
use dmn_cpp.Base.{ℕ, ◌*◌, ◌≡◌, refl, true, false, [], ◌∷◌, ok, ◌==◌, if◌then◌else◌}
use dmn_cpp.Status.{is_not_found}
use dmn_cpp.Status.Samples.{codes}
use dmn_cpp.ItemValue.{Handles, Answer, Native, ItemValue, make, moved, next}

abbrev handles : ℕ → Handles
handles n = record { item = n; value = 10 * n; size = 4 }

abbrev found : ℕ → Answer
found n = record { status = 0; handles = handles n }

abbrev none_found : Answer
none_found = record { status = 0x222; handles = handles 0 }

abbrev native : Native
native = record {
  info = λ name. found 1;
  info_next = λ item name. if item == 1 then found 2 else none_found;
  info_prev = λ item name. if item == 2 then found 1 else none_found;
}

abbrev first : ItemValue
first = record { has_note = true; item = 65 ∷ []; item_bid = 1; value_bid = 10; size = 4 }

abbrev second : ItemValue
second = record first { item_bid = 2; value_bid = 20 }

make_run : make native (ok 3) (65 ∷ []) ≡ ok first
unfolding make
make_run = refl

last_run : next codes native (ok 3) second ≡ ok (false, second)
unfolding next moved
last_run = refl

is_plain : is_not_found codes 0 ≡ false
unfolding is_not_found
is_plain = refl
