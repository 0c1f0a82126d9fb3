-- ===== src/Handle/Ownership.antt =====
-- Every handle that is taken over is closed, released or overwritten once, over any history of calls,
-- from any threads.
use dmn_cpp.Base.{
  subst, false, ℕ, suc, ◌+◌, ◌≡◌, refl, true, not, ◌&&◌, List, [], ◌∷◌, ◌++◌, Option, none, some,
  ◌==◌, if◌then◌else◌, ok, err, arith, Bool-cases, inl, inr,
}
use dmn_cpp.Handle.{
  Handle, Closed, reset_unchecked, destroy, move_from, move_assign, make, write_data, check_thread,
  is_owner_thread, release, reset, put,
}

-- How often a handle stands in a list; the null handle is not counted.
abbrev pub count : ℕ → List ℕ → ℕ
count c [] = 0
count c (x ∷ xs) = if (x == c) && not (x == 0) then suc (count c xs) else count c xs

pub count-append : (c : ℕ) (xs ys : List ℕ) → count c (xs ++ ys) ≡ count c xs + count c ys
count-append c [] ys = omega arith
count-append c (x ∷ xs) ys = ground (arith, count-append c xs ys)

-- A wrapper with its history: what it took over, what it gave back, what was overwritten through the
-- pointer that `data()` gives, and what it closed.
pub record Owner : Type 0 where
  pub handle : Handle
  pub taken : List ℕ
  pub released : List ℕ
  pub overwritten : List ℕ
  pub closed : Closed

-- `assigns n owner` is the move assignment of a new wrapper of the handle that another thread may have
-- made, `moves` the move to a new object and the end of the old one.
pub data Call : Type 0 where
  releases resets moves : Call
  puts writes : ℕ → Call
  assigns : ℕ → ℕ → Call

after_destroy : Owner → Handle → Option Closed → Option Owner
after_destroy o new none = none
after_destroy o new (some closed) = some (record o { handle = new; closed = closed })

after_assign : Owner → ℕ → Option ((Handle × Handle) × Closed) → Option Owner
after_assign o n none = none
after_assign o n (some ((h, left), closed)) =
    some (record o { handle = h; taken = n ∷ o.taken; closed = closed })

-- A call from a thread; one that throws leaves everything as it was, and none is std::terminate.
unfoldable pub step : Owner → ℕ × Call → Option Owner
unfolding release reset put write_data move_from destroy move_assign make after_destroy after_assign
step o (thread, releases) = elim (release thread o.handle) [
  | ok (old, h) ↦ some (record o { handle = h; released = old ∷ o.released })
  | err e ↦ some o
]
step o (thread, resets) = elim (reset thread o.handle o.closed) [
  | ok (h, closed) ↦ some (record o { handle = h; closed = closed })
  | err e ↦ some o
]
step o (thread, puts n) = elim (put thread n o.handle o.closed) [
  | ok (h, closed) ↦ some (record o { handle = h; closed = closed; taken = n ∷ o.taken })
  | err e ↦ some o
]
step o (thread, writes n) = elim (write_data thread n o.handle) [
  | ok h ↦
      some
        (record o { handle = h; taken = n ∷ o.taken; overwritten = o.handle.hdl ∷ o.overwritten })
  | err e ↦ some o
]
step o (thread, moves) =
    let (new, left) = move_from o.handle in after_destroy o new (destroy thread left o.closed)
step o (thread, assigns n owner) =
    after_assign o n (move_assign thread o.handle (make n true owner) o.closed)

unfoldable pub run : Option Owner → List (ℕ × Call) → Option Owner
unfolding step
run none calls = none
run (some o) [] = some o
run (some o) (c ∷ cs) = run (step o c) cs

abbrev pub start : ℕ → ℕ → Owner
start n thread = record {
  handle = record { hdl = n; cleanup = true; owner = thread };
  taken = n ∷ [];
  released = [];
  overwritten = [];
  closed = [];
}

-- What was taken over is closed, released, overwritten or still held; a cleanup function stays.
pub record IsBalanced (o : Owner) : Type 0 where
  pub kept : o.handle.cleanup ≡ true
  pub balance :
      (c : ℕ)
      → count c o.taken
        ≡ count c o.closed
          + count c o.released
          + count c o.overwritten
          + count c (o.handle.hdl ∷ [])

abbrev AllBalanced : Option Owner → Type 0
AllBalanced none = Unit {0}
AllBalanced (some o) = IsBalanced o

reset-count :
    (c : ℕ) (h : Handle) (closed : Closed)
    → h.cleanup ≡ true
    → let (after, now) = reset_unchecked h closed in
      (count c now + count c (after.hdl ∷ []) ≡ count c closed + count c (h.hdl ∷ []))
      × (count c now ≡ count c closed + count c (h.hdl ∷ []))
      × (after.cleanup ≡ true)
unfolding reset_unchecked
reset-count c h closed kept = ground (arith, kept, count-append c closed (h.hdl ∷ []))

count-cons : (c x : ℕ) (xs : List ℕ) → count c (x ∷ xs) ≡ count c (x ∷ []) + count c xs
count-cons c x xs = ground arith

null-count : (c : ℕ) → count c (0 ∷ []) ≡ 0
null-count c = ground arith

own-AllBalanced :
    (o : Owner) (thread : ℕ) (call : Call)
    → (o.handle.owner == thread) ≡ true
    → IsBalanced o
    → AllBalanced (step o (thread, call))
unfolding step release reset put write_data move_from destroy move_assign make after_destroy
    after_assign check_thread is_owner_thread
own-AllBalanced o thread releases own b =
    rw (step, own)
      (record {
        kept = b.kept;
        balance =
            λ c. omega (arith, b.balance c, count-cons c o.handle.hdl o.released, null-count c);
      })
own-AllBalanced o thread resets own b =
    rw (step, own)
      (record {
        kept = (reset-count 0 o.handle o.closed b.kept).2;
        balance = λ c. omega (arith, b.balance c, (reset-count c o.handle o.closed b.kept).0);
      })
own-AllBalanced o thread moves own b =
    rw (step, own) (record { kept = b.kept; balance = b.balance })
own-AllBalanced o thread (puts n) own b =
    rw (step, own)
      (record {
        kept = (reset-count 0 o.handle o.closed b.kept).2;
        balance = λ c. omega (
          arith,
          b.balance c,
          (reset-count c o.handle o.closed b.kept).1,
          count-cons c n o.taken,
        );
      })
own-AllBalanced o thread (writes n) own b =
    rw (step, own)
      (record {
        kept = b.kept;
        balance = λ c.
            omega
              (arith, b.balance c, count-cons c n o.taken, count-cons c o.handle.hdl o.overwritten);
      })
own-AllBalanced o thread (assigns n owner) own b =
    rw (step, own)
      (record {
        kept = refl;
        balance = λ c. omega (
          arith,
          b.balance c,
          (reset-count c o.handle o.closed b.kept).1,
          count-cons c n o.taken,
        );
      })

foreign-AllBalanced :
    (o : Owner) (thread : ℕ) (call : Call)
    → (o.handle.owner == thread) ≡ false
    → IsBalanced o
    → AllBalanced (step o (thread, call))
unfolding step release reset put write_data move_from destroy move_assign make after_destroy
    after_assign check_thread is_owner_thread
foreign-AllBalanced o thread releases foreign b = rw (step, foreign) b
foreign-AllBalanced o thread resets foreign b = rw (step, foreign) b
foreign-AllBalanced o thread moves foreign b = rw (step, foreign) tt
foreign-AllBalanced o thread (puts n) foreign b = rw (step, foreign) b
foreign-AllBalanced o thread (writes n) foreign b = rw (step, foreign) b
foreign-AllBalanced o thread (assigns n owner) foreign b = rw (step, foreign) tt

run-AllBalanced :
    (o : Option Owner) (calls : List (ℕ × Call)) → AllBalanced o → AllBalanced (run o calls)
unfolding run
run-AllBalanced none calls b = tt
run-AllBalanced (some o) [] b = b
run-AllBalanced (some o) ((thread, call) ∷ cs) b =
    run-AllBalanced (step o (thread, call)) cs (elim (Bool-cases (o.handle.owner == thread)) [
      | inl own ↦ own-AllBalanced o thread call own b
      | inr foreign ↦ foreign-AllBalanced o thread call foreign b
    ])

start-IsBalanced : (n thread : ℕ) → IsBalanced (start n thread)
start-IsBalanced n thread = record { kept = refl; balance = λ c. ground arith }

-- A wrapper with a cleanup function, after any calls from any threads that did not terminate the process,
-- and its destruction on the thread that owns it: the destructor returns, and each handle but the null
-- one was taken over as often as it was closed, released and overwritten through `data()` together. So
-- none is closed twice, and none is leaked but those that were overwritten.
pub destroy-run_exact :
    (n thread : ℕ) (calls : List (ℕ × Call)) (o : Owner)
    → run (some (start n thread)) calls ≡ some o
    → (closed : Closed) × (destroy o.handle.owner o.handle o.closed ≡ some closed)
      × ((c : ℕ) → count c o.taken ≡ count c closed + count c o.released + count c o.overwritten)
unfolding destroy is_owner_thread
destroy-run_exact n thread calls o ended =
    let b : IsBalanced o =
      subst AllBalanced ended
        (run-AllBalanced (some (start n thread)) calls (start-IsBalanced n thread)) in
    (
      (reset_unchecked o.handle o.closed).1,
      ground arith,
      λ c. omega (arith, b.balance c, (reset-count c o.handle o.closed b.kept).1),
    )

-- Two objects destroyed one after the other.
abbrev pub destroy_both : ℕ → Handle → Handle → Closed → Option Closed
destroy_both thread first second closed = elim (destroy thread first closed) [
  | none ↦ none
  | some c ↦ destroy thread second c
]

-- After a move the two objects together close what the one did: the new one closes the handle and
-- what is left of the old one closes nothing, in either order of destruction.
pub destroy-move_from :
    (h : Handle) (closed : Closed)
    → let (new, left) = move_from h in
      (destroy_both h.owner new left closed ≡ destroy h.owner h closed)
      × (destroy_both h.owner left new closed ≡ destroy h.owner h closed)
unfolding destroy move_from reset_unchecked
destroy-move_from h closed = ground arith
