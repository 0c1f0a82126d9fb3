-- ===== src/ThreadContext/Tests.antt =====
-- Thread 1 uses the library, starts thread 2 and thread 3, and thread 2 ends.
use dmn_cpp.Base.{Option, true, false, [], ◌∷◌, some, ◌≡◌, refl, err, thread_error, arith}
use dmn_cpp.ThreadContext.{
  Process, start, instance_of, spawn, finish, uses, starts, Reach, here, next,
}
use dmn_cpp.ThreadContext.Reached.{IsSound, Reach-IsSound}

abbrev running : Process
running = record { session = true; main = some 1; contexts = 2 ∷ 1 ∷ [] }

running_Reach : Reach running
unfolding instance_of spawn
running_Reach =
    next (next here (uses 1 0 start)) (
      starts 1 2 0 (record { session = true; main = some 1; contexts = 1 ∷ [] }) (omega arith) refl)

finished_lem : (finish 2 running).contexts ≡ 1 ∷ []
unfolding finish
finished_lem = refl

-- A thread with a context of its own that is the first to use the library cannot make the static one.
own_context_lem :
    (instance_of 4 0 (record { session = false; main = Option.none; contexts = 4 ∷ [] })).0
    ≡ err thread_error
unfolding instance_of
own_context_lem = refl

Reach-IsSound_example : IsSound running
Reach-IsSound_example = Reach-IsSound running_Reach
