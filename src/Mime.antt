-- ===== src/Mime.antt =====
-- src/messaging/mime.cpp and include/dmn/messaging/mime.hpp: a MIME stream and what is written to it.
-- What the SDK answers to a line may depend on the lines before it; a line that it refuses is not
-- counted among the lines written. The stream's handle is that of Handle.
pub mod Lines
mod Tests
use dmn_cpp.Base.{
  zero, suc, ℕ, true, List, [], ◌∷◌, ◌++◌, Bytes, codes, ◌==◌, if◌then◌else◌, Result, ok, err,
  ◌>>=◌, ◌>>◌,
}
use dmn_cpp.Handle.{Handle}
use dmn_cpp.Handle
use dmn_cpp.Status.{Codes, Answer, throw_if_error, make_mime_error}

pub record Mime : Type 0 where
  pub hdl : Handle
  pub content : List Bytes
  pub charset : Bytes
  pub content_type : Bytes

-- The constructor, with the members' initial values.
unfoldable pub make_mime : ℕ → ℕ → Mime
make_mime thread handle = record {
  hdl = Handle.make handle true thread;
  content = [];
  charset = codes "UTF-8";
  content_type = codes "text/html; charset=UTF-8";
}

unfoldable pub open_impl : Result ℕ → Answer → Result ℕ
unfolding throw_if_error
open_impl note answer = do h ← note; throw_if_error answer.status; ok answer.handle

unfoldable pub open_mime : ℕ → Result ℕ → Answer → Result Mime
unfolding open_impl make_mime
open_mime thread note answer = do h ← open_impl note answer; ok (make_mime thread h)

unfoldable pub set_content_type : Bytes → Mime → Mime
set_content_type content_type m = record m { content_type = content_type }

unfoldable pub set_charset : Bytes → Mime → Mime
set_charset charset m = record m { charset = charset }

unfoldable pub append_content : Bytes → Mime → Mime
append_content content m = record m { content = m.content ++ content ∷ [] }

-- The lines that a call left in the stream, and what it threw, if anything.
abbrev pub Written : Type 0
Written = Result (Unit {0}) × List Bytes

-- The code behind a line, which an exception skips.
infixl 5 ◌then_do◌
abbrev pub ◌then_do◌ : Written → (List Bytes → Written) → Written
(err e, lines) then_do next = (err e, lines)
(ok u, lines) then_do next = next lines

unfoldable pub content_line : Mime → Bytes
content_line m = codes "Content-Type: " ++ (m.content_type ++ (codes "; charset=" ++ m.charset))

-- What a C string of the bytes is: they end at the first zero byte.
unfoldable pub c_string : Bytes → Bytes
c_string [] = []
c_string (zero ∷ bs) = []
c_string (suc b ∷ bs) = suc b ∷ c_string bs

module _ (c : Codes) (success : ℕ) (answers : List Bytes → Bytes → ℕ) where
  unfoldable pub put_line : Result ℕ → Bytes → List Bytes → Written
  unfolding make_mime_error
  put_line (err e) line lines = (err e, lines)
  put_line (ok h) line lines =
      if answers lines line == success
      then (ok tt, lines ++ line ∷ [])
      else (err (make_mime_error c (answers lines line)), lines)

  unfoldable pub write_line : ℕ → Mime → Bytes → List Bytes → Written
  unfolding put_line
  write_line thread m line lines = put_line (Handle.get thread m.hdl) (c_string line) lines

  -- `write_line` for each of several lines.
  unfoldable pub write_lines : ℕ → Mime → List Bytes → List Bytes → Written
  unfolding write_line
  write_lines thread m [] lines = (ok tt, lines)
  write_lines thread m (l ∷ ls) lines =
      write_line thread m l lines then_do λ after. write_lines thread m ls after

  -- The status of MIMEStreamItemize, where all lines are written.
  unfoldable pub itemize : ℕ → Mime → ℕ → Written → Written
  unfolding throw_if_error
  itemize thread m status (err e, lines) = (err e, lines)
  itemize thread m status (ok u, lines) =
      (do h ← Handle.get thread m.hdl; throw_if_error status, lines)

  unfoldable pub write_to_impl : ℕ → Mime → ℕ → Written
  unfolding write_lines itemize content_line
  write_to_impl thread m status = itemize thread m status (
      write_lines thread m
        (content_line m ∷ codes "Content-Transfer-Encoding: 8bit" ∷ [] ∷ m.content) [])

-- `write_to`, for a note whose handle `note` gives.
unfoldable pub write_to : Codes → ℕ → (List Bytes → Bytes → ℕ) → ℕ → Result ℕ → Mime → ℕ → Written
unfolding write_to_impl
write_to c success answers thread (err e) m status = (err e, [])
write_to c success answers thread (ok h) m status = write_to_impl c success answers thread m status
