-- ===== src/Mime/Lines.antt =====
-- Which lines reach the stream, and what stops them.
use dmn_cpp.Base.{
  ℕ, ◌≡◌, ◌≢◌, ◌⊎◌, inl, inr, refl, ◌∙◌, Bool-cases, true, false, List, [], ◌∷◌, ◌++◌, append_assoc,
  map, Bytes, codes, ◌==◌, Result, ok, err, arith,
}
use dmn_cpp.Handle.{Handle}
use dmn_cpp.Handle
use dmn_cpp.Status.{Codes, throw_if_error, make_mime_error}
use dmn_cpp.Mime.{
  Mime, Written, content_line, put_line, write_line, write_lines, itemize, write_to_impl, c_string,
}

module _ (c : Codes) (success : ℕ) (answers : List Bytes → Bytes → ℕ) where
  -- From the lines `before` on: all lines were accepted and written, or one was refused, those before
  -- it are written and the exception is that of its code. `end` is what happens behind the last line.
  abbrev pub Stopped : Result (Unit {0}) → List Bytes → List Bytes → Written → Type 0
  Stopped end before lines (r, written) =
      (rest : List Bytes) × (written ++ rest ≡ before ++ lines)
      × (((r ≡ end) × (rest ≡ []))
          ⊎ ((line : Bytes) × (others : List Bytes) × (rest ≡ line ∷ others)
              × (answers written line ≢ success)
              × (r ≡ err (make_mime_error c (answers written line)))))

  module _ (thread : ℕ) (m : Mime) (h : ℕ) (opened : Handle.get thread m.hdl ≡ ok h) where
    write_line_done :
        (line : Bytes) (before : List Bytes)
        → (answers before (c_string line) == success) ≡ true
        → write_line c success answers thread m line before ≡ (ok tt, before ++ c_string line ∷ [])
    unfolding write_line put_line
    write_line_done line before e = rw (opened, put_line, e) refl

    write_line_refused :
        (line : Bytes) (before : List Bytes)
        → (answers before (c_string line) == success) ≡ false
        → write_line c success answers thread m line before
          ≡ (err (make_mime_error c (answers before (c_string line))), before)
    unfolding write_line put_line
    write_line_refused line before e = rw (opened, put_line, e) refl

    write_lines-Stopped :
        (lines before : List Bytes)
        → Stopped
            (ok tt)
            before
            (map c_string lines)
            (write_lines c success answers thread m lines before)
    unfolding write_lines
    write_lines-Stopped [] before = ([], refl, inl (refl, refl))
    write_lines-Stopped (l ∷ ls) before =
        elim (Bool-cases (answers before (c_string l) == success)) [
          | inl taken ↦
              rw (write_lines, write_line_done l before taken)
                (let (rest, e, why) = write_lines-Stopped ls (before ++ c_string l ∷ []) in
                  (rest, e ∙ append_assoc before (c_string l ∷ []) (map c_string ls), why))
          | inr refused ↦
              rw (write_lines, write_line_refused l before refused)
                (
                  c_string l ∷ map c_string ls,
                  refl,
                  inr (c_string l, map c_string ls, refl, ground (arith, refused), refl),
                )
        ]

    itemize-Stopped :
        (status : ℕ) (lines : List Bytes) (w : Written)
        → Stopped (ok tt) [] lines w
        → Stopped (throw_if_error status) [] lines (itemize c success answers thread m status w)
    unfolding itemize
    itemize-Stopped status lines (ok u, written) (rest, e, inl (done, all)) =
        rw opened (rest, e, inl (refl, all))
    itemize-Stopped status lines (ok u, written)
          (rest, e, inr (line, others, split, refused, thrown)) =
        cc
    itemize-Stopped status lines (err x, written) (rest, e, inl (done, all)) = cc
    itemize-Stopped status lines (err x, written) (rest, e, inr why) = (rest, e, inr why)

    -- With an open stream, the header, the encoding, an empty line and the content go into the stream in
    -- this order, each line up to its first zero byte, up to the first line that the SDK refuses, whose code gives the exception; where it
    -- refuses none, the end is that of MIMEStreamItemize.
    pub write_to_impl-Stopped :
        (status : ℕ)
        → Stopped
            (throw_if_error status)
            []
            (map c_string
              (content_line m ∷ codes "Content-Transfer-Encoding: 8bit" ∷ [] ∷ m.content))
            (write_to_impl c success answers thread m status)
    unfolding write_to_impl
    write_to_impl-Stopped status =
        let lines = content_line m ∷ codes "Content-Transfer-Encoding: 8bit" ∷ [] ∷ m.content in
        itemize-Stopped status (map c_string lines)
          (write_lines c success answers thread m lines []) (write_lines-Stopped lines [])
