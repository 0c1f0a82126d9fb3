-- ===== src/ThreadContext/Reached.antt =====
-- What holds of every process that is reached.
use dmn_cpp.Base.{
  ℕ, suc, ◌≤◌, true, false, Bool-cases, inl, inr, List, [], ◌∷◌, Option, none, some, ◌≡◌, ◌≢◌,
  subst, ap, sym, refl, ◌∙◌, ◌==◌, if◌then◌else◌, Result, ok, err, thread_error, arith,
}
use dmn_cpp.Status.{throw_if_error}
use dmn_cpp.ThreadContext.{
  Process, start, has, without, make_context, end_context, current, static_context, ensure_context,
  ensure_session, instance_of, enter_thread, start_thread, spawn, finish, Step, uses, starts, ends,
  Reach, here, next,
}

abbrev pub count : ℕ → List ℕ → ℕ
count t [] = 0
count t (c ∷ cs) = if c == t then suc (count t cs) else count t cs

-- The thread of the static context.
abbrev pub IsMain : Option ℕ → ℕ → Type 0
IsMain none t = false ≡ true
IsMain (some m) t = m ≡ t

-- No thread has two contexts, there is a context only with the session and the static one, and its
-- thread has it.
pub record IsSound (p : Process) : Type 0 where
  pub once : (t : ℕ) → count t p.contexts ≤ 1
  pub main_has : (m : ℕ) → IsMain p.main m → has m p.contexts ≡ true
  pub after_session : (m : ℕ) → IsMain p.main m → p.session ≡ true

count_has : (t : ℕ) (cs : List ℕ) → has t cs ≡ false → count t cs ≡ 0
count_has t [] e = refl
count_has t (c ∷ cs) e = ground (arith, count_has t cs)

count-without : (t u : ℕ) (cs : List ℕ) → count u (without t cs) ≤ count u cs
count-without t u [] = omega arith
count-without t u (c ∷ cs) = ground (arith, count-without t u cs)

has-without : (t u : ℕ) (cs : List ℕ) → t ≢ u → has u (without t cs) ≡ has u cs
has-without t u [] ne = refl
has-without t u (c ∷ cs) ne = ground (arith, has-without t u cs)

added_once : (t u : ℕ) (cs : List ℕ) → has t cs ≡ false → count u cs ≤ 1 → count u (t ∷ cs) ≤ 1
added_once t u cs missing once = elim (Bool-cases (t == u)) [
  | inl same ↦ rw same (
      omega (
        arith,
        count_has u cs (subst (λ (v : ℕ). has v cs ≡ false) (ground (arith, same)) missing),
      ))
  | inr other ↦ rw other once
]

has_added : (t m : ℕ) (cs : List ℕ) → has m cs ≡ true → has m (t ∷ cs) ≡ true
has_added t m cs e = ground (arith, e)

has_self : (t : ℕ) (cs : List ℕ) → has t (t ∷ cs) ≡ true
has_self t cs = ground arith

static_context-IsSound :
    (t : ℕ) (p : Process)
    → p.session ≡ true
    → IsSound p
    → IsSound (static_context t p (make_context t p.contexts)).1
unfolding static_context make_context
static_context-IsSound t p ready s = elim (Bool-cases (has t p.contexts)) [
  | inl there ↦ rw there s
  | inr missing ↦ rw missing (record {
    once = λ u. added_once t u p.contexts missing (s.once u);
    main_has = λ m e. subst (λ (v : ℕ). has v (t ∷ p.contexts) ≡ true) e (has_self t p.contexts);
    after_session = λ m e. ready;
  })
]

ensure_context-IsSound :
    (t : ℕ) (m : Option ℕ) (p : Process)
    → p.session ≡ true
    → IsSound p
    → IsSound (ensure_context t m p).1
unfolding ensure_context
ensure_context-IsSound t (some m) p ready s = s
ensure_context-IsSound t none p ready s = static_context-IsSound t p ready s

ensure_session-IsSound :
    (r : Result (Unit {0})) (t : ℕ) (p : Process) → IsSound p → IsSound (ensure_session r t p).1
unfolding ensure_session
ensure_session-IsSound (err e) t p s = s
ensure_session-IsSound (ok u) t p s =
    ensure_context-IsSound t p.main (record p { session = true }) refl
      (record { once = s.once; main_has = s.main_has; after_session = λ m e. refl })

instance_of-IsSound : (t status : ℕ) (p : Process) → IsSound p → IsSound (instance_of t status p).1
unfolding instance_of
instance_of-IsSound t status p s =
    ensure_session-IsSound (if p.session then ok tt else throw_if_error status) t p s

start_thread-IsSound :
    (worker : ℕ) (r : Result (Unit {0}) × Process) → IsSound r.1 → IsSound (start_thread worker r).1
unfolding start_thread enter_thread make_context
start_thread-IsSound worker (err e, p) s = s
start_thread-IsSound worker (ok u, p) s = elim (Bool-cases (has worker p.contexts)) [
  | inl there ↦ rw there s
  | inr missing ↦ rw missing (record {
    once = λ u. added_once worker u p.contexts missing (s.once u);
    main_has = λ m e. has_added worker m p.contexts (s.main_has m e);
    after_session = s.after_session;
  })
]

main_ne : (main : Option ℕ) (worker m : ℕ) → main ≢ some worker → IsMain main m → worker ≢ m
main_ne none worker m ne e = cc
main_ne (some k) worker m ne e = λ w. ne (ap some (e ∙ sym w))

Step-IsSound : {p q : Process} → Step p q → IsSound p → IsSound q
unfolding spawn finish end_context
Step-IsSound (uses t status p) s = instance_of-IsSound t status p s
Step-IsSound (starts t worker status p other fresh) s =
    start_thread-IsSound worker (instance_of t status p) (instance_of-IsSound t status p s)
Step-IsSound (ends worker p ne) s = record {
  once = λ u. omega (arith, count-without worker u p.contexts, s.once u);
  main_has = λ m e. has-without worker m p.contexts (main_ne p.main worker m ne e) ∙ s.main_has m e;
  after_session = s.after_session;
}

start-IsSound : IsSound start
start-IsSound = record { once = λ t. omega arith; main_has = λ m e. cc; after_session = λ m e. cc }

-- Whatever threads use the library, are started and end, in whatever order: no thread ever has two
-- contexts, and from the call on that made the static context its thread has one, with the session
-- initialised.
pub Reach-IsSound : {p : Process} → Reach p → IsSound p
Reach-IsSound here = start-IsSound
Reach-IsSound (next r step) = Step-IsSound step (Reach-IsSound r)

-- In a process that is reached and has its static context, starting a thread that has no context yet
-- does not throw, whatever NotesInit would answer: in it and in the thread of the static context
-- `current` gives a context. On a thread that has none it throws.
pub spawn_lem :
    {p : Process} (t worker status m : ℕ)
    → Reach p
    → p.main ≡ some m
    → has worker p.contexts ≡ false
    → ((spawn t worker status p).0 ≡ ok tt)
      × (current worker (spawn t worker status p).1 ≡ ok tt)
      × (current m (spawn t worker status p).1 ≡ ok tt)
      × (current worker p ≡ err thread_error)
unfolding spawn start_thread enter_thread make_context instance_of ensure_session ensure_context
    current
spawn_lem {p} t worker status m r e fresh =
    let s = Reach-IsSound r in
    let is_main : IsMain p.main m = subst (λ (o : Option ℕ). IsMain o m) (sym e) refl in
    let ready = s.after_session m is_main in
    let there = s.main_has m is_main in
    (
      ground (arith, ready, e, fresh),
      ground (arith, ready, e, fresh, has_self worker p.contexts),
      ground (arith, ready, e, fresh, has_added worker m p.contexts there),
      rw fresh refl,
    )
