-- ===== src/Addin/Loop.antt =====
-- When the loop of an add-in ends, and that it ends then.
use dmn_cpp.Base.{
  ℕ, zero, suc, ◌+◌, ◌≡◌, ◌<◌, ◌≤◌, ◌∙◌, ap, refl, true, false, List, [], ◌∷◌, ◌++◌, none, some, ok,
  err, Error, arith,
}
use dmn_cpp.Addin.{
  Turn, Log, error_thrown, loop_stopped, after_call, run_loop, log_stop, enter_loop,
}

-- A turn that the loop goes on after.
abbrev pub Continues : Turn → Type 0
Continues turn = (turn.idle ≡ false) × (turn.callback ≡ ok tt) × (turn.should_terminate ≡ false)

-- How a turn ends the loop, with the number of callbacks in it and what it logs.
pub data Stops (turn : Turn) : ℕ → List Log → Type 0 where
  when_idle : turn.idle ≡ true → Stops turn 0 []
  when_thrown :
      (e : Error) → turn.idle ≡ false → turn.callback ≡ err e → Stops turn 1 (error_thrown e ∷ [])
  when_told :
      turn.idle ≡ false → turn.callback ≡ ok tt → turn.should_terminate ≡ true → Stops turn 1 []

continues_lem :
    (turns : ℕ → Turn) (fuel n : ℕ)
    → Continues (turns n)
    → run_loop (suc fuel) turns n ≡ run_loop fuel turns (suc n)
unfolding run_loop after_call
continues_lem turns fuel n (busy, called, on) = rw (busy, called, on)

stops_lem :
    (turns : ℕ → Turn) (fuel n k : ℕ) (messages : List Log)
    → Stops (turns n) k messages
    → run_loop (suc fuel) turns n ≡ some (record { calls = n + k; messages = messages })
unfolding run_loop after_call
stops_lem turns fuel n k messages (when_idle idle) =
    rw idle (ap (λ c. some (record { calls = c; messages = [] })) (omega arith))
stops_lem turns fuel n k messages (when_thrown e busy thrown) =
    rw (busy, thrown)
      (ap (λ c. some (record { calls = c; messages = error_thrown e ∷ [] })) (omega arith))
stops_lem turns fuel n k messages (when_told busy called told) =
    rw (busy, called, told) (ap (λ c. some (record { calls = c; messages = [] })) (omega arith))

run_loop_lem :
    (turns : ℕ → Turn) (m n fuel k : ℕ) (messages : List Log)
    → ((i : ℕ) → n ≤ i → i < n + m → Continues (turns i))
    → Stops (turns (n + m)) k messages
    → m < fuel
    → run_loop fuel turns n ≡ some (record { calls = n + m + k; messages = messages })
run_loop_lem turns m n zero k messages before stop enough = absurd (omega arith)
run_loop_lem turns zero n (suc fuel) k messages before stop enough =
    let e : n + 0 ≡ n = omega arith in rw e (stops_lem turns fuel n k messages (rw e at stop))
run_loop_lem turns (suc m) n (suc fuel) k messages before stop enough =
    let e : n + suc m ≡ suc n + m = omega arith in
    continues_lem turns fuel n (before n (omega arith) (omega arith))
    ∙ rw e (
        run_loop_lem turns m (suc n) fuel k messages
          (λ i low high. before i (omega (arith, low)) (omega (arith, high))) (rw e at stop)
          (omega (arith, enough)))

running :
    (turns : ℕ → Turn) (fuel n : ℕ)
    → ((i : ℕ) → n ≤ i → i < n + fuel → Continues (turns i))
    → run_loop fuel turns n ≡ none
unfolding run_loop
running turns zero n on = refl
running turns (suc fuel) n on =
    continues_lem turns fuel n (on n (omega arith) (omega arith))
    ∙ running turns fuel (suc n) (λ i low high. on i (omega (arith, low)) (omega (arith, high)))

-- With the status line set, the loop runs the callback once in each turn before the first that stops
-- it, ends in that turn, whatever would come after, and logs the callback's exception, if there is
-- one, and that it stopped. Fuel above the number of that turn is enough.
pub enter_loop-ends :
    (turns : ℕ → Turn) (m fuel k : ℕ) (messages : List Log)
    → ((i : ℕ) → i < m → Continues (turns i))
    → Stops (turns m) k messages
    → m < fuel
    → enter_loop true fuel turns
      ≡ ok (some (record { calls = m + k; messages = messages ++ loop_stopped ∷ [] }))
unfolding enter_loop log_stop
enter_loop-ends turns m fuel k messages before stop enough =
    let e : 0 + m ≡ m = omega arith in
    rw (
      run_loop_lem turns m 0 fuel k messages (λ i low high. before i (omega (arith, high)))
          (rw (← e) at stop) enough,
      e,
    )

-- The loop ends for no other reason: after any number of turns that go on it is still running.
pub enter_loop_running :
    (turns : ℕ → Turn) (fuel : ℕ)
    → ((i : ℕ) → i < fuel → Continues (turns i))
    → enter_loop true fuel turns ≡ ok none
unfolding enter_loop log_stop
enter_loop_running turns fuel on =
    rw (running turns fuel 0 (λ i low high. on i (omega (arith, high))))
