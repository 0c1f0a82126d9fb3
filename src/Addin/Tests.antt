-- ===== src/Addin/Tests.antt =====
-- An add-in that is told to stop in its third turn, and one whose callback throws.
use dmn_cpp.Base.{ℕ, ◌≡◌, refl, true, false, [], ◌∷◌, some, ok, err, runtime_error, ◌==◌, arith}
use dmn_cpp.Lmbcs.{Translate}
use dmn_cpp.Addin.{Turn, error_thrown, loop_stopped, enter_loop}
use dmn_cpp.Addin.Loop.{when_told, enter_loop-ends}

abbrev turns : ℕ → Turn
turns n = record { idle = false; callback = ok tt; should_terminate = n == 2 }

abbrev failing : ℕ → Turn
failing n = record { idle = false; callback = err runtime_error; should_terminate = false }

thrown_run :
    enter_loop true 9 failing
    ≡ ok (some (record { calls = 1; messages = error_thrown runtime_error ∷ loop_stopped ∷ [] }))
unfolding enter_loop
thrown_run = refl

enter_loop-ends_example :
    enter_loop true 9 turns ≡ ok (some (record { calls = 3; messages = loop_stopped ∷ [] }))
enter_loop-ends_example =
    enter_loop-ends turns 2 9 1 [] (λ i small. (refl, refl, ground arith))
      (when_told refl refl refl) (omega arith)

abbrev os : Translate
os = record { lmbcs_to_utf8 = λ b n. b; utf8_to_lmbcs = λ b n. b }
