-- ===== src/Status.antt =====
-- include/dmn/error.hpp and src/error.cpp: status codes of the native calls. The codes' values are
-- the Domino SDK's, so they are a parameter; success is 0, which src/error.cpp asserts.
pub mod Samples
use dmn_cpp.Base.{
  ℕ, ◌≡◌, ◌≢◌, ◌↔◌, ◌⊎◌, refl, Bool, true, false, not, ◌&&◌, ◌||◌, ◌==◌, if◌then◌else◌, Result, ok,
  err, Error, native_error, mime_error, mime_io_error, mime_eos_error, arith,
}

pub record Codes : Type 0 where
  pub not_found : ℕ
  pub noexist : ℕ
  pub invalid_note : ℕ
  pub note_deleted : ℕ
  pub item_not_found : ℕ
  pub acl_noentry : ℕ
  pub note_already_locked_by_locker : ℕ
  pub note_locked : ℕ
  pub note_locked_bysomeone : ℕ
  pub note_not_locked_by_locker : ℕ
  pub mime_stream_io : ℕ
  pub mime_stream_eos : ℕ

unfoldable pub is_error : ℕ → Bool
is_error value = not (value == 0)

unfoldable pub throw_if_error : ℕ → Result (Unit {0})
unfolding is_error
throw_if_error value = if is_error value then err (native_error value) else ok tt

unfoldable pub is_not_found : Codes → ℕ → Bool
is_not_found c value =
    (value == c.not_found)
    || ((value == c.noexist)
        || ((value == c.invalid_note)
            || ((value == c.note_deleted)
                || ((value == c.item_not_found) || (value == c.acl_noentry)))))

unfoldable pub is_locked : Codes → ℕ → Bool
is_locked c value =
    (value == c.note_already_locked_by_locker)
    || ((value == c.note_locked)
        || ((value == c.note_locked_bysomeone) || (value == c.note_not_locked_by_locker)))

-- `mime_error::make`: the class of exception for a code.
unfoldable pub make_mime_error : Codes → ℕ → Error
make_mime_error c code =
    if code == c.mime_stream_io
    then mime_io_error
    else if code == c.mime_stream_eos
    then mime_eos_error
    else mime_error

-- What a call that opens or reads something answers: a status and a handle.
pub record Answer : Type 0 where
  pub status : ℕ
  pub handle : ℕ
