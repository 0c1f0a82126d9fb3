-- ===== src/Addin.antt =====
-- src/addin/addin.cpp: the loop of an add-in and what it logs. A turn of the loop is what its calls
-- answer; the fuel is the number of turns, and none is a loop that goes on.
pub mod Loop
pub mod Escape
mod Tests
use dmn_cpp.Base.{
  ℕ, zero, suc, Bool, true, false, List, [], ◌∷◌, ◌++◌, Option, none, some, Bytes, ◌==◌,
  if◌then◌else◌, Result, ok, err, Error, invalid_handle,
}
use dmn_cpp.Lmbcs.{Translate, from_string}

-- AddInIdle, the callback and AddInShouldTerminate in one turn.
pub record Turn : Type 0 where
  pub idle : Bool
  pub callback : Result (Unit {0})
  pub should_terminate : Bool

pub data Log : Type 0 where
  error_thrown : Error → Log
  loop_stopped : Log

-- The number of callbacks that ran, and the messages.
pub record Ended : Type 0 where
  pub calls : ℕ
  pub messages : List Log

unfoldable pub after_call : Result (Unit {0}) → Bool → ℕ → Option Ended → Option Ended
after_call (err e) terminate calls rest =
    some (record { calls = suc calls; messages = error_thrown e ∷ [] })
after_call (ok u) terminate calls rest =
    if terminate then some (record { calls = suc calls; messages = [] }) else rest

-- The turns from number `n` on, which is also the number of callbacks so far.
unfoldable pub run_loop : ℕ → (ℕ → Turn) → ℕ → Option Ended
unfolding after_call
run_loop zero turns n = none
run_loop (suc fuel) turns n =
    let rest = run_loop fuel turns (suc n) in
    if (turns n).idle
    then some (record { calls = n; messages = [] })
    else after_call (turns n).callback (turns n).should_terminate n rest

unfoldable pub log_stop : Option Ended → Result (Option Ended)
log_stop none = ok none
log_stop (some ended) = ok (some (record ended { messages = ended.messages ++ loop_stopped ∷ [] }))

-- `enter_loop`, with whether the status line's handle is set.
unfoldable pub enter_loop : Bool → ℕ → (ℕ → Turn) → Result (Option Ended)
unfolding run_loop log_stop
enter_loop is_set fuel turns =
    if is_set then log_stop (run_loop fuel turns 0) else err invalid_handle

-- The loop of `to_escaped_lmbcs`.
unfoldable pub escape : Bytes → Bytes
escape [] = []
escape (chr ∷ text) =
    let rest = escape text in if chr == b'%' then b'%' ∷ b'%' ∷ rest else chr ∷ rest

module _ (os : Translate) where
  unfoldable pub to_escaped_lmbcs : Bytes → Bytes
  unfolding escape
  to_escaped_lmbcs text = from_string os (escape text)

  unfoldable pub set_log_prefix : Bytes → Option Bytes
  unfolding to_escaped_lmbcs
  set_log_prefix prefix = some (to_escaped_lmbcs prefix)

  -- The message that `log_impl` passes on as a format.
  unfoldable pub log_impl : Option Bytes → Bytes → Bytes
  unfolding to_escaped_lmbcs
  log_impl none text = to_escaped_lmbcs text
  log_impl (some prefix) text = prefix ++ to_escaped_lmbcs text
