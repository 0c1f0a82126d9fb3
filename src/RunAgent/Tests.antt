-- ===== src/RunAgent/Tests.antt =====
-- Runs with an output, and one whose document is refused.
use dmn_cpp.Base.{
  ◌≡◌, ◌⊎◌, refl, true, List, [], ◌∷◌, ◌++◌, none, some, codes, ok, Error, native_error, arith,
}
use dmn_cpp.Handle
use dmn_cpp.Handle.{Handle}
use dmn_cpp.Lmbcs.{Translate, to_string}
use dmn_cpp.Cursor.{done, threw}
use dmn_cpp.Locker.{lock, unlock}
use dmn_cpp.RunAgent.{
  Call, create_context, set_document, redirect, run, query, memory, destroy_context, Native,
  in_context, run_agent,
}
use dmn_cpp.RunAgent.Context.{AreInner, run_agent-closes, run_agent-output}

abbrev os : Translate
os = record { lmbcs_to_utf8 = λ s n. s; utf8_to_lmbcs = λ s n. s }

abbrev agent : Handle
agent = record { hdl = 5; cleanup = true; owner = 1 }

abbrev hello : Native
hello = record {
  context = record { status = 0; handle = 9 };
  document_status = 0;
  redirect_status = 0;
  run_status = 0;
  out_hdl = 6;
  out_len = 2;
  out_memory = some (codes "hi!");
}

abbrev refused : Native
refused = record hello { document_status = 4 }

refused_lem :
    run_agent os refused 1 agent (some (ok 3))
    ≡ (threw (native_error 4), create_context ∷ set_document ∷ destroy_context 9 ∷ [])
unfolding run_agent Handle.get
refused_lem = refl

foreign_lem : (run_agent os hello 2 agent none).1 ≡ []
unfolding run_agent Handle.get
foreign_lem = refl

run_agent-closes_example :
    ((e : Error) × ((run_agent os refused 1 agent (some (ok 3)) ≡ (threw e, []))
        ⊎ (run_agent os refused 1 agent (some (ok 3)) ≡ (threw e, create_context ∷ []))))
    ⊎ ((body : List Call) × AreInner body
        × (run_agent os refused 1 agent (some (ok 3)) ≡ (
          (in_context os refused (some (ok 3))).0,
          create_context ∷ (body ++ destroy_context 9 ∷ []),
        )))
run_agent-closes_example = run_agent-closes os refused 1 agent (some (ok 3))

hello_run : run_agent os hello 1 agent (some (ok 3)) ≡ (
  done (some (codes "hi")),
  create_context
      ∷ set_document
      ∷ redirect
      ∷ run
      ∷ query
      ∷ memory (lock 6)
      ∷ memory (unlock 6)
      ∷ destroy_context 9
      ∷ [],
)
unfolding to_string Handle.get
hello_run =
    run_agent-output os hello 1 agent 5 3 (codes "hi!") refl refl refl refl refl (omega arith)
      (omega arith) (omega arith) refl (omega arith)
