-- ===== src/Handle/Tests.antt =====
-- The handle wrapper at concrete inputs.
use dmn_cpp.Base.{ℕ, ◌+◌, ◌≡◌, refl, true, List, [], ◌∷◌, some, none}
use dmn_cpp.Handle.{destroy, reset_unchecked}
use dmn_cpp.Handle.Ownership.{
  Owner, Call, releases, resets, moves, puts, writes, assigns, start, run, count, destroy-run_exact,
}

abbrev calls : List (ℕ × Call)
calls =
    (1, puts 8)
    ∷ (2, resets)
    ∷ (1, releases)
    ∷ (1, moves)
    ∷ (1, puts 9)
    ∷ (1, writes 5)
    ∷ (1, assigns 6 3)
    ∷ []

abbrev after : Owner
after = record {
  handle = record { hdl = 6; cleanup = true; owner = 3 };
  taken = 6 ∷ 5 ∷ 9 ∷ 8 ∷ 7 ∷ [];
  released = 8 ∷ [];
  overwritten = 9 ∷ [];
  closed = 7 ∷ 5 ∷ [];
}

run_closed : run (some (start 7 1)) calls ≡ some after
unfolding run reset_unchecked
run_closed = refl

foreign_move : run (some (start 7 1)) ((2, moves) ∷ []) ≡ none
unfolding run
foreign_move = refl

destroy-run_exact_example :
    (closed : List ℕ) × (destroy 3 after.handle after.closed ≡ some closed)
    × ((c : ℕ) → count c after.taken ≡ count c closed + count c (8 ∷ []) + count c (9 ∷ []))
destroy-run_exact_example = destroy-run_exact 7 1 calls after run_closed
