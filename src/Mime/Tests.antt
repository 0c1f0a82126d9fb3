-- ===== src/Mime/Tests.antt =====
-- A MIME stream whose third line the SDK refuses, and the header that a new one writes.
use dmn_cpp.Base.{
  ◌++◌, ℕ, ◌≡◌, refl, true, List, [], ◌∷◌, Bytes, codes, length, ◌==◌, if◌then◌else◌, ok, err,
  mime_io_error,
}
use dmn_cpp.Handle
use dmn_cpp.Handle.{make}
use dmn_cpp.Status.{throw_if_error}
use dmn_cpp.Status.Samples
use dmn_cpp.Mime.{c_string, Mime, make_mime, content_line, write_to_impl}
use dmn_cpp.Mime.Lines.{Stopped, write_to_impl-Stopped}

-- The charset stands in the default content type and is written once more.
content_line_new :
    content_line (make_mime 1 7) ≡ codes "Content-Type: text/html; charset=UTF-8; charset=UTF-8"
unfolding content_line make_mime
content_line_new = refl

abbrev plain : Mime
plain = record {
  hdl = record { hdl = 7; cleanup = true; owner = 1 };
  content = (codes "hello" ++ 0 ∷ 33 ∷ []) ∷ [];
  charset = codes "UTF-8";
  content_type = codes "text/plain";
}

abbrev refuses : List Bytes → Bytes → ℕ
refuses lines line = if length lines == 2 then 3 else 0

plain_lem : write_to_impl Samples.codes 0 refuses 1 plain 0 ≡ (
  err mime_io_error,
  codes "Content-Type: text/plain; charset=UTF-8" ∷ codes "Content-Transfer-Encoding: 8bit" ∷ [],
)
unfolding write_to_impl Handle.get c_string
plain_lem = refl

write_to_impl-Stopped_example :
    Stopped Samples.codes 0 refuses
      (ok tt)
      []
      (codes "Content-Type: text/plain; charset=UTF-8"
        ∷ codes "Content-Transfer-Encoding: 8bit"
        ∷ []
        ∷ codes "hello"
        ∷ [])
      (write_to_impl Samples.codes 0 refuses 1 plain 0)
unfolding throw_if_error content_line Handle.get c_string
write_to_impl-Stopped_example = write_to_impl-Stopped Samples.codes 0 refuses 1 plain 7 refl 0
