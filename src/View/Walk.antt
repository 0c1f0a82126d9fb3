-- ===== src/View/Walk.antt =====
-- How far a walk over a view goes: src/view.cpp, `iterate_entries` and `iterate`.
use Prim.Native.Nat.{min}
use dmn_cpp.Base.{
  ℕ, zero, suc, ◌+◌, ◌-◌, ◌≤◌, ◌≡◌, refl, Bool, true, false, not, ◌||◌, List, [], ◌∷◌, Option, none,
  some, Bytes, leb, ◌==◌, Result, ok, err, arith, length, length-append, Bool-cases, inl, inr,
}
use dmn_cpp.Status.{Codes, is_not_found, throw_if_error}
use dmn_cpp.Cursor.{Outcome, done, threw, fault, Cursor, make}
use dmn_cpp.View.{
  Layout, Page, Match, QueryOptions, Walk, attempt, stop_if, lift, visit, read_row, read_rows,
  followed_by, lock_page, read_pages, first_skip, iterate_entries, iterate_found, iterate_key,
  iterate_from, iterate,
}

-- A page holds no more entries than it was asked for.
abbrev pub IsModest : {Position : Type 0} → (Position → ℕ → ℕ → Page Position) → Type 0
IsModest {Position} read_entries = (p : Position) (skip n : ℕ) → (read_entries p skip n).count ≤ n

weaken : {a m n : ℕ} → a ≤ m → m ≤ n → a ≤ n
weaken p q = omega (arith, p, q)

module _ (layout : Layout) {Note : Type 0} (get_note : ℕ → Result (Option Note)) where
  -- The number of callbacks of a walk.
  abbrev pub calls : Walk layout get_note → ℕ
  calls w = length (w.0)

  attempt-bound :
      {A : Type 0} (m : Outcome A) (k : A → Walk layout get_note) (n : ℕ)
      → ((a : A) → calls (k a) ≤ n)
      → calls (attempt layout get_note m k) ≤ n
  attempt-bound (done a) k n p = p a
  attempt-bound (threw e) k n p = omega arith
  attempt-bound fault k n p = omega arith

  stop_if-bound :
      (b : Bool) (k : Unit {0} → Walk layout get_note) (n : ℕ)
      → (b ≡ false → calls (k tt) ≤ n)
      → calls (stop_if layout get_note b k) ≤ n
  stop_if-bound true k n p = omega arith
  stop_if-bound false k n p = p refl

  visit-bound :
      (r : Result (Option Note)) (columns : List Bytes) (rest : Walk layout get_note) (n : ℕ)
      → calls rest ≤ n
      → calls (visit layout get_note r columns rest) ≤ suc n
  unfolding visit
  visit-bound (err e) columns rest n p = omega arith
  visit-bound (ok none) columns rest n p = omega (arith, p)
  visit-bound (ok (some note)) columns rest n p = omega (arith, p)

  rows-bound : (n : ℕ) (c : Cursor) → calls (read_rows layout get_note n c) ≤ n
  unfolding read_rows
  rows-bound zero c = omega arith
  rows-bound (suc n) c =
      attempt-bound (read_row layout c) _ (suc n)
        λ row. visit-bound (get_note (row.0.0)) (row.0.1) _ n (rows-bound n (row.1))

  module _ {Position : Type 0} (read_entries : Position → ℕ → ℕ → Page Position) where
    followed_by-bound :
        (first rest : Walk layout get_note) (m n : ℕ)
        → calls first ≤ m
        → calls rest ≤ n
        → calls (followed_by layout get_note read_entries first rest) ≤ m + n
    unfolding followed_by
    followed_by-bound (calls, threw e) rest m n p q = omega (arith, p)
    followed_by-bound (calls, fault) rest m n p q = omega (arith, p)
    followed_by-bound (calls, done u) rest m n p q =
        omega (arith, p, q, length-append calls (rest.0))

    module _ (modest : IsModest read_entries) where
      pages-bound :
          (f : ℕ) (p : Position) (skip remaining : ℕ) (more : Bool)
          → calls (read_pages layout get_note read_entries f p skip remaining more) ≤ remaining
      unfolding read_pages
      pages-bound zero p skip remaining more = omega arith
      pages-bound (suc f) p skip remaining more =
          stop_if-bound (not more || (remaining == 0)) _ remaining λ _.
            let page = read_entries p skip remaining in
            attempt-bound (lift (throw_if_error page.status)) _ remaining λ _.
              attempt-bound (lock_page layout get_note read_entries page.memory) _ remaining
                λ memory. stop_if-bound (page.count == 0) _ remaining λ _.
                  weaken
                    (followed_by-bound (read_rows layout get_note page.count (make memory))
                      (stop_if layout get_note (leb remaining page.count) λ _.
                        read_pages layout get_note read_entries f page.position 0
                          (remaining - page.count) page.more)
                      page.count (remaining - page.count) (rows-bound page.count (make memory))
                      (stop_if-bound (leb remaining page.count) _ _
                        λ _. pages-bound f page.position 0 (remaining - page.count) page.more))
                    (omega (arith, modest p skip remaining))

      -- A walk calls back at most as often as there are entries asked for and not skipped.
      entries-bound :
          (position : Position) (opts : QueryOptions) (available : ℕ)
          → calls (iterate_entries layout get_note read_entries position opts available)
            ≤ min opts.count (available - opts.offset)
      unfolding iterate_entries
      entries-bound position opts available = elim (Bool-cases (leb available opts.offset)) [
        | inl past ↦ rw past (omega arith)
        | inr within ↦ rw within (
            pages-bound (min opts.count (available - opts.offset)) position
              (first_skip opts.key opts.offset) _ true)
      ]

      module _ (codes : Codes) (start : Position) (find_by_name : Bytes → Match Position)
          (from_utf8 : Bytes → Result Bytes) where
        Bounds : QueryOptions → Option Bytes → Walk layout get_note → Type 0
        Bounds opts key w =
            (calls w ≤ opts.count)
            × (key ≡ none → calls w ≤ opts.count - opts.offset)
            × (key ≡ some [] → calls w ≤ opts.count - opts.offset)

        key-bound :
            (opts : QueryOptions) (key : Option Bytes)
            → Bounds opts key (
                iterate_from layout get_note read_entries codes start find_by_name from_utf8 opts
                  key)
        unfolding Bounds iterate_from iterate_key iterate_found
        key-bound opts none =
            let b = entries-bound start opts opts.count in
            (omega (arith, b), λ e. omega (arith, b), λ e. omega (arith, b))
        key-bound opts (some []) =
            let b = entries-bound start opts opts.count in
            (omega (arith, b), λ e. omega (arith, b), λ e. omega (arith, b))
        key-bound opts (some (c ∷ cs)) = (
          attempt-bound (lift (from_utf8 (c ∷ cs))) _ _ λ converted.
              let found = find_by_name converted in
              stop_if-bound (is_not_found codes found.status) _ _ λ _.
                attempt-bound (lift (throw_if_error found.status)) _ _
                  λ _. let b = entries-bound found.position opts found.matches in omega (arith, b),
          λ e. cc,
          λ e. cc,
        )

        -- Where NIFReadEntries gives no more entries than it was asked for, `iterate` calls back at most
        -- `count` times; and where the key is missing or empty, at most as often as `count` is above
        -- `offset`, so that an offset that reaches the count leaves nothing.
        pub iterate-bound :
            (opts : QueryOptions)
            → let w =
                iterate layout get_note read_entries codes start find_by_name from_utf8 opts in
              (calls w ≤ opts.count)
              × (opts.key ≡ none → calls w ≤ opts.count - opts.offset)
              × (opts.key ≡ some [] → calls w ≤ opts.count - opts.offset)
        unfolding iterate Bounds
        iterate-bound opts = key-bound opts opts.key
