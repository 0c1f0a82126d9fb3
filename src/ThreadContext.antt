-- ===== src/ThreadContext.antt =====
-- include/dmn/detail/thread_context.hpp, src/detail/thread_context.cpp, `session` of src/detail/runtime.cpp and
-- include/dmn/thread.hpp: which threads have a context. The process is the session's static objects
-- with the threads whose thread_local pointer is set; each step is made by one thread. The calls that
-- initialise and end the SDK on a thread are known by the status of the session's; a thread whose
-- context ends closes its handles, which Store models.
pub mod Reached
mod Tests
use dmn_cpp.Base.{
  ℕ, Bool, true, false, not, List, [], ◌∷◌, Option, none, some, ◌≡◌, ◌≢◌, ◌==◌, if◌then◌else◌,
  Result, ok, err, thread_error, guard,
}
use dmn_cpp.Status.{throw_if_error}

pub record Process : Type 0 where
  pub session : Bool
  pub main : Option ℕ
  pub contexts : List ℕ

abbrev pub start : Process
start = record { session = false; main = none; contexts = [] }

-- Whether a thread's pointer to its context is set.
abbrev pub has : ℕ → List ℕ → Bool
has t [] = false
has t (c ∷ cs) = if c == t then true else has t cs

abbrev pub without : ℕ → List ℕ → List ℕ
without t [] = []
without t (c ∷ cs) = if c == t then without t cs else c ∷ without t cs

-- The constructor of `thread_context`.
unfoldable pub make_context : ℕ → List ℕ → Result (List ℕ)
make_context t contexts = if has t contexts then err thread_error else ok (t ∷ contexts)

-- The destructor.
unfoldable pub end_context : ℕ → List ℕ → List ℕ
end_context t contexts = without t contexts

unfoldable pub current : ℕ → Process → Result (Unit {0})
current t p = guard (has t p.contexts) thread_error

-- The static context of `instance`: an exception leaves it to the next call.
unfoldable pub static_context : ℕ → Process → Result (List ℕ) → Result (Unit {0}) × Process
static_context t p (err e) = (err e, p)
static_context t p (ok contexts) = (ok tt, record p { main = some t; contexts = contexts })

unfoldable pub ensure_context : ℕ → Option ℕ → Process → Result (Unit {0}) × Process
unfolding static_context make_context
ensure_context t (some m) p = (ok tt, p)
ensure_context t none p = static_context t p (make_context t p.contexts)

-- The static session of `instance`, where NotesInit answers `status`.
unfoldable pub ensure_session : Result (Unit {0}) → ℕ → Process → Result (Unit {0}) × Process
unfolding ensure_context
ensure_session (err e) t p = (err e, p)
ensure_session (ok u) t p = ensure_context t p.main (record p { session = true })

unfoldable pub instance_of : ℕ → ℕ → Process → Result (Unit {0}) × Process
unfolding ensure_session throw_if_error
instance_of t status p = ensure_session (if p.session then ok tt else throw_if_error status) t p

-- What the function of a new thread does first.
unfoldable pub enter_thread : ℕ → Process → Result (List ℕ) → Result (Unit {0}) × Process
enter_thread t p (err e) = (err e, p)
enter_thread t p (ok contexts) = (ok tt, record p { contexts = contexts })

-- The constructor of `dmn::thread` on `t`, and the context of the thread that it starts.
unfoldable pub start_thread : ℕ → Result (Unit {0}) × Process → Result (Unit {0}) × Process
unfolding enter_thread make_context
start_thread worker (err e, p) = (err e, p)
start_thread worker (ok u, p) = enter_thread worker p (make_context worker p.contexts)

unfoldable pub spawn : ℕ → ℕ → ℕ → Process → Result (Unit {0}) × Process
unfolding start_thread instance_of
spawn t worker status p = start_thread worker (instance_of t status p)

-- The end of a thread's function.
unfoldable pub finish : ℕ → Process → Process
unfolding end_context
finish worker p = record p { contexts = end_context worker p.contexts }

-- What the threads of a process do: use the library, start a thread that has no context yet, and end a
-- started one.
pub data Step : Process → Process → Type 0 where
  uses : (t status : ℕ) (p : Process) → Step p (instance_of t status p).1
  starts :
      (t worker status : ℕ) (p : Process)
      → worker ≢ t
      → has worker p.contexts ≡ false
      → Step p (spawn t worker status p).1
  ends : (worker : ℕ) (p : Process) → p.main ≢ some worker → Step p (finish worker p)

pub data Reach : Process → Type 0 where
  here : Reach start
  next : {p q : Process} → Reach p → Step p q → Reach q
