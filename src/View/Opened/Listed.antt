-- ===== src/View/Opened/Listed.antt =====
-- What `get_entries` gives for a walk over a view.
use dmn_cpp.Base.{
  ℕ, suc, ◌≤◌, ◌≡◌, refl, ap, subst, List, [], ◌∷◌, Option, Bytes, Result, ok, err, arith, length,
}
use dmn_cpp.Status.{Codes}
use dmn_cpp.Cursor.{Outcome, done, threw, fault}
use dmn_cpp.Cursor
use dmn_cpp.View.{Layout, Page, Match, QueryOptions, lift, iterate}
use dmn_cpp.View.Walk.{IsModest, iterate-bound}
use dmn_cpp.View.Opened.{Entry, push_entries, get_entries}

-- What of an entry is a callback's: the note has the entry's id, and the columns are the same.
pub AreEntries :
    {Note : Type 0} → (Note → Result ℕ) → List (Note × List Bytes) → List Entry → Type 0
AreEntries note_id [] [] = Unit {0}
AreEntries note_id ((note, columns) ∷ calls) (e ∷ es) =
    (note_id note ≡ ok e.noteid) × (columns ≡ e.columns) × AreEntries note_id calls es
AreEntries note_id [] (e ∷ es) = ⊥
AreEntries note_id (c ∷ calls) [] = ⊥

bind_done :
    {A B : Type 0} (m : Outcome A) (k : A → Outcome B) (b : B)
    → Cursor.◌>>=◌ m k ≡ done b
    → (a : A) × (m ≡ done a) × (k a ≡ done b)
bind_done (done a) k b e = (a, refl, e)
bind_done (threw x) k b e = cc
bind_done fault k b e = cc

lift_done : {A : Type 0} (r : Result A) (a : A) → lift r ≡ done a → r ≡ ok a
lift_done (ok x) a e = cc
lift_done (err x) a e = cc

module _ {Note : Type 0} (note_id : Note → Result ℕ) where
  push_entries_lem :
      (calls : List (Note × List Bytes)) (end : Outcome (Unit {0})) (es : List Entry)
      → push_entries note_id calls end ≡ done es
      → (end ≡ done tt) × AreEntries note_id calls es × (length es ≡ length calls)
  unfolding push_entries AreEntries
  push_entries_lem [] end [] e = let (u, ended, out) = bind_done end _ [] e in (ended, tt, refl)
  push_entries_lem [] end (x ∷ es) e = let (u, ended, out) = bind_done end _ (x ∷ es) e in cc
  push_entries_lem ((note, columns) ∷ calls) end es e =
      let (id, found, rest) = bind_done (lift (note_id note)) _ es e in
      let (entries, pushed, out) = bind_done (push_entries note_id calls end) _ es rest in
      let (ended, are, count) = push_entries_lem calls end entries pushed in
      let same : record { noteid = id; columns = columns } ∷ entries ≡ es = cc in
      subst
        (λ l.
          (end ≡ done tt)
          × AreEntries note_id ((note, columns) ∷ calls) l
          × (length l ≡ suc (length calls)))
        same (ended, (lift_done (note_id note) id found, refl, are), ap suc count)

  module _ (layout : Layout) (get_note : ℕ → Result (Option Note)) {Position : Type 0}
      (read_entries : Position → ℕ → ℕ → Page Position) (codes : Codes) (start : Position)
      (find_by_name : Bytes → Match Position) (from_utf8 : Bytes → Result Bytes) where
    -- Where NIFReadEntries gives no more entries than it was asked for and `get_entries` returns a vector, the walk ended without an
    -- exception, and the vector holds an entry for each callback, in order, with the id of its note and
    -- its columns: at most `count` of them.
    pub get_entries-bound :
        (opts : QueryOptions) (es : List Entry)
        → IsModest read_entries
        → get_entries note_id
            (iterate layout get_note read_entries codes start find_by_name from_utf8 opts)
          ≡ done es
        → let w = iterate layout get_note read_entries codes start find_by_name from_utf8 opts in
          (w.1 ≡ done tt) × AreEntries note_id (w.0) es × (length es ≤ opts.count)
    unfolding get_entries
    get_entries-bound opts es modest returned =
        let w = iterate layout get_note read_entries codes start find_by_name from_utf8 opts in
        let (ended, are, count) = push_entries_lem (w.0) (w.1) es returned in
        let (most, keyless, empty) =
          iterate-bound layout get_note read_entries modest codes start find_by_name from_utf8
            opts in
        (ended, are, omega (arith, count, most))
