-- ===== src/ItemValue.antt =====
-- The class item_value of src/value.cpp: an item of a note, and the moves to the next and the previous
-- item of the same name. Blocks are numbers; `hdl` is what the note's `get_handle` gives, and the
-- SDK's walk is a parameter.
pub mod Moves
mod Tests
use dmn_cpp.Base.{ℕ, Bool, true, false, Bytes, length, if◌then◌else◌, Result, ok, err, ◌>>=◌, ◌>>◌}
use dmn_cpp.Status.{Codes, is_not_found, throw_if_error}
use dmn_cpp.Cast.{checked_cast}

-- `handles`: what the SDK answers for an item.
pub record Handles : Type 0 where
  pub item : ℕ
  pub value : ℕ
  pub size : ℕ

pub record Answer : Type 0 where
  pub status : ℕ
  pub handles : Handles

-- `NSFItemInfo`, `NSFItemInfoNext` and `NSFItemInfoPrev`; the last two from an item on.
pub record Native : Type 0 where
  pub info : Bytes → Answer
  pub info_next : ℕ → Bytes → Answer
  pub info_prev : ℕ → Bytes → Answer

pub record ItemValue : Type 0 where
  pub has_note : Bool
  pub item : Bytes
  pub item_bid : ℕ
  pub value_bid : ℕ
  pub size : ℕ

unfoldable pub apply_handles : Handles → ItemValue → ItemValue
apply_handles hdls v = record v { item_bid = hdls.item; value_bid = hdls.value; size = hdls.size }

-- The constructor from a note.
unfoldable pub make : Native → Result ℕ → Bytes → Result ItemValue
unfolding throw_if_error apply_handles
make native hdl item = do
  h ← hdl
  let answer = native.info item
  throw_if_error answer.status
  ok (
      apply_handles answer.handles
        (record { has_note = true; item = item; item_bid = 0; value_bid = 0; size = 0 }))

module _ (codes : Codes) where
  unfoldable pub moved : Answer → ItemValue → Result (Bool × ItemValue)
  unfolding is_not_found throw_if_error apply_handles
  moved answer v =
      if is_not_found codes answer.status
      then ok (false, v)
      else (throw_if_error answer.status >> ok (true, apply_handles answer.handles v))

module _ (codes : Codes) (native : Native) (hdl : Result ℕ) where
  unfoldable pub move_impl : Bool → ItemValue → Result (Bool × ItemValue)
  unfolding checked_cast
  move_impl forward v =
      if v.has_note
      then (hdl >>= λ h. checked_cast 16 (length v.item) >>= λ n.
          moved codes
            (if forward
              then native.info_next v.item_bid v.item
              else native.info_prev v.item_bid v.item)
            v)
      else ok (false, v)

  unfoldable pub next : ItemValue → Result (Bool × ItemValue)
  unfolding move_impl
  next v = move_impl true v

  unfoldable pub previous : ItemValue → Result (Bool × ItemValue)
  unfolding move_impl
  previous v = move_impl false v
