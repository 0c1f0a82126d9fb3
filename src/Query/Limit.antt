-- ===== src/Query/Limit.antt =====
-- What a query returns: src/database.cpp, `run_query`.
use Prim.Native.Nat.{min}
use dmn_cpp.Base.{
  take-nil, ℕ, zero, suc, ◌-◌, ◌≤◌, ◌<◌, ◌≡◌, ap, sym, ◌∙◌, List, [], ◌∷◌, ◌++◌, append_assoc,
  append-nil, Option, none, some, Bytes, ltb, length, length-append, take, ok, arith, Bool-cases,
  Option-cases, inl, inr,
}
use dmn_cpp.Status.{throw_if_error}
use dmn_cpp.Dql.{Expression, render}
use dmn_cpp.Query.{Table, emplace, collect, run_query, max_dql_entries}

unfoldable pub keep : {Note : Type 0} → Option Note → List Note → List Note
keep none rest = rest
keep (some note) rest = note ∷ rest

-- The notes that are there, of those with the ids of a list.
unfoldable pub present : {Note : Type 0} → (ℕ → Option Note) → List ℕ → List Note
present note_of [] = []
present note_of (id ∷ ids) = keep (note_of id) (present note_of ids)

module _ {Note : Type 0} (note_of : ℕ → Option Note) where
  take-none : (n : ℕ) → n ≡ 0 → (xs : List Note) → take n xs ≡ []
  take-none n e xs = ap (λ k. take k xs) e

  take-some : (n : ℕ) (x : Note) (xs : List Note) → 0 < n → take n (x ∷ xs) ≡ x ∷ take (n - 1) xs
  take-some zero x xs p = absurd (omega arith)
  take-some (suc n) x xs p = let e : n ≡ suc n - 1 = omega arith in ap (λ k. x ∷ take k xs) e

  placed :
      (max : ℕ) (output rest : List Note) (n : Note)
      → length output < max
      → (output ++ n ∷ []) ++ take (max - length (output ++ n ∷ [])) rest
        ≡ output ++ take (max - length output) (n ∷ rest)
  placed max output rest n p =
      let e : max - length (output ++ n ∷ []) ≡ max - length output - 1 =
        omega (arith, length-append output (n ∷ [])) in
      append_assoc output (n ∷ []) (take (max - length (output ++ n ∷ [])) rest)
      ∙ ap (λ t. output ++ t)
          (ap (λ k. n ∷ take k rest) e
            ∙ sym (take-some (max - length output) n rest (omega (arith, p))))

  collect_lem :
      (max : ℕ) (ids : List ℕ) (output : List Note)
      → length output ≤ max
      → collect (λ id. ok (note_of id)) max ids output
        ≡ ok (output ++ take (max - length output) (present note_of ids))
  unfolding collect present emplace keep
  collect_lem max [] output p =
      ap ok (sym (append-nil output) ∙ ap (λ t. output ++ t) (sym (take-nil (max - length output))))
  collect_lem max (id ∷ ids) output p = elim (Bool-cases (ltb (length output) max)) [
    | inr full ↦ rw full (
        ap ok (
          sym (append-nil output)
          ∙ ap (λ t. output ++ t) (sym (take-none (max - length output) (ground arith) _))))
    | inl room ↦
        let below : length output < max = ground arith in
        elim (Option-cases (note_of id)) [
          | inl gone ↦ rw (room, gone) (collect_lem max ids output p)
          | inr (n, found) ↦
              rw (room, found)
                (collect_lem max ids (output ++ n ∷ [])
                    (omega (arith, below, length-append output (n ∷ [])))
                  ∙ ap ok (placed max output (present note_of ids) n below))
        ]
  ]

  -- Where every lookup of a note ends well, a query that renders and that the SDK runs without an
  -- error returns the notes that are there of those that it found, in order, up to the limit and
  -- never more than 65535.
  pub run_query_lem :
      {Double : Type 0} (to_string : Double → Bytes) (from_string : Bytes → Bytes)
      (query_db : Bytes → Table) (query : Expression Double) (limit : ℕ) (text : Bytes)
      → render to_string query ≡ ok text
      → (query_db (from_string text)).status ≡ 0
      → run_query (λ id. ok (note_of id)) to_string from_string query_db query limit
        ≡ ok (
            take
              (min max_dql_entries limit)
              (present note_of (query_db (from_string text)).note_ids))
  unfolding run_query throw_if_error
  run_query_lem to_string from_string query_db query limit text rendered fine =
      let e : min max_dql_entries limit - 0 ≡ min max_dql_entries limit = omega arith in
      rw (rendered, fine)
        (collect_lem (min max_dql_entries limit) (query_db (from_string text)).note_ids []
            (omega arith)
          ∙ ap (λ k. ok (take k (present note_of (query_db (from_string text)).note_ids))) e)
