-- ===== src/TextLists.antt =====
-- src/list.cpp: a text list, kept by the SDK. Its list calls are a parameter, `Native`: what they report
-- of a list, and a status with the list after a change. A list's handle is taken to be there.
pub mod Refines
pub mod Iterator
mod Tests
use dmn_cpp.Base.{
  ℕ, suc, ◌-◌, ◌^◌, Bool, true, false, not, Bytes, ltb, leb, ◌==◌, if◌then◌else◌, length, Result,
  ok, err, out_of_range, ◌>>=◌, ◌>>◌, guard,
}
use dmn_cpp.Status.{throw_if_error}
use dmn_cpp.Lmbcs.{Translate, to_string, from_string}

pub record Native (L : Type 0) : Type 0 where
  pub num_entries : L → ℕ
  pub get_text : L → ℕ → ℕ × Bytes
  pub add_entry : L → ℕ → Bytes → ℕ × L
  pub remove_entry : L → ℕ → ℕ × L
  pub remove_all : L → ℕ × L

abbrev pub max_uint16 : ℕ
max_uint16 = 2 ^ 16 - 1

module _ {L : Type 0} (native : Native L) where
  unfoldable pub size : L → ℕ
  size l = native.num_entries l

  unfoldable pub empty : L → Bool
  empty l = size l == 0

  -- The list that a call leaves, where its status is no error.
  abbrev pub changed : ℕ × L → Result L
  changed (status, after) = do throw_if_error status; ok after

  abbrev pub text : ℕ × Bytes → Result Bytes
  text (status, found) = do throw_if_error status; ok found

  unfoldable pub erase : ℕ → L → Result L
  erase index l = do guard (ltb index (size l)) out_of_range; changed (native.remove_entry l index)

  unfoldable pub pop_back : L → Result L
  pop_back l = do guard (not (size l == 0)) out_of_range; erase (size l - 1) l

  unfoldable pub clear : L → Result L
  clear l = changed (native.remove_all l)

  module _ (os : Translate) where
    unfoldable pub at : ℕ → L → Result Bytes
    at index l = do
      guard (ltb index (size l)) out_of_range
      found ← text (native.get_text l index)
      ok (to_string os found)

    unfoldable pub push_back : Bytes → L → Result L
    push_back value l = do
      guard (leb (length (from_string os value)) max_uint16) out_of_range
      guard (leb (size l) max_uint16) out_of_range
      changed (native.add_entry l (size l) (from_string os value))
