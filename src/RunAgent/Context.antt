-- ===== src/RunAgent/Context.antt =====
-- The context of a run is destroyed once, and the output's memory is unlocked once.
use dmn_cpp.Base.{
  ℕ, ◌*◌, ◌≡◌, ◌≢◌, ◌≤◌, ◌⊎◌, inl, inr, refl, List, [], ◌∷◌, ◌++◌, map, Option, none, some, Bytes,
  take, length, ◌==◌, if◌then◌else◌, Result, ok, err, Error, arith,
}
use dmn_cpp.Handle.{Handle}
use dmn_cpp.Handle
use dmn_cpp.Status.{is_error, throw_if_error}
use dmn_cpp.Lmbcs.{Translate, to_string}
use dmn_cpp.Cursor.{done, threw, fault}
use dmn_cpp.Locker.{Made, borrow, construct, lock, unlock}
use dmn_cpp.Locker
use dmn_cpp.Traced.{Traced, ◌>>=◌, ◌>>◌, call}
use dmn_cpp.RunAgent.{
  Call, create_context, set_document, redirect, run, query, memory, destroy_context, Native,
  read_output, grab_output, set_context, in_context, with_context, run_agent,
}

-- No call here makes or ends a context.
unfoldable pub AreInner : List Call → Type 0
AreInner [] = Unit {0}
AreInner (create_context ∷ calls) = ⊥
AreInner (destroy_context ctx ∷ calls) = ⊥
AreInner (set_document ∷ calls) = AreInner calls
AreInner (redirect ∷ calls) = AreInner calls
AreInner (run ∷ calls) = AreInner calls
AreInner (query ∷ calls) = AreInner calls
AreInner (memory c ∷ calls) = AreInner calls

append-AreInner : (xs ys : List Call) → AreInner xs → AreInner ys → AreInner (xs ++ ys)
unfolding AreInner
append-AreInner [] ys h k = k
append-AreInner (create_context ∷ calls) ys h k = absurd h
append-AreInner (destroy_context ctx ∷ calls) ys h k = absurd h
append-AreInner (set_document ∷ calls) ys h k = append-AreInner calls ys h k
append-AreInner (redirect ∷ calls) ys h k = append-AreInner calls ys h k
append-AreInner (run ∷ calls) ys h k = append-AreInner calls ys h k
append-AreInner (query ∷ calls) ys h k = append-AreInner calls ys h k
append-AreInner (memory c ∷ calls) ys h k = append-AreInner calls ys h k

map_memory-AreInner : (calls : List Locker.Call) → AreInner (map memory calls)
unfolding AreInner
map_memory-AreInner [] = tt
map_memory-AreInner (c ∷ calls) = map_memory-AreInner calls

module _ {A B : Type 0} where
  >>=-AreInner :
      (first : Traced Call A) (next : A → Traced Call B)
      → AreInner first.1
      → ((a : A) → AreInner (next a).1)
      → AreInner (first >>= next).1
  >>=-AreInner (done a, calls) next h k = append-AreInner calls (next a).1 h (k a)
  >>=-AreInner (threw e, calls) next h k = h
  >>=-AreInner (fault, calls) next h k = h

module _ (os : Translate) where
  read_output-AreInner : (made : Made) → AreInner (read_output os made).1
  unfolding read_output
  read_output-AreInner (done locker, calls) = map_memory-AreInner (calls ++ Locker.destroy locker)
  read_output-AreInner (threw e, calls) = map_memory-AreInner calls
  read_output-AreInner (fault, calls) = map_memory-AreInner calls

  module _ (native : Native) where
    grab_output-AreInner : AreInner (grab_output os native).1
    unfolding grab_output AreInner
    grab_output-AreInner = ground (
      arith,
      read_output-AreInner (
          construct (record { pool = native.out_hdl; block = 0 }) native.out_len borrow
            native.out_memory),
    )

    set_context-AreInner : (note : Option (Result ℕ)) → AreInner (set_context os native note).1
    unfolding set_context call AreInner
    set_context-AreInner none = tt
    set_context-AreInner (some (err e)) = tt
    set_context-AreInner (some (ok h)) = tt

    in_context-AreInner : (note : Option (Result ℕ)) → AreInner (in_context os native note).1
    unfolding in_context call AreInner
    in_context-AreInner note =
        >>=-AreInner (set_context os native note)
          (λ u.
            call redirect native.redirect_status
            >> (call run native.run_status >> ((done tt, query ∷ []) >> grab_output os native)))
          (set_context-AreInner note)
          (λ u.
            >>=-AreInner (call redirect native.redirect_status)
              (λ v. call run native.run_status >> ((done tt, query ∷ []) >> grab_output os native))
              tt
              (λ v.
                >>=-AreInner (call run native.run_status)
                  (λ w. (done tt, query ∷ []) >> grab_output os native) tt
                  (λ w. grab_output-AreInner)))

    -- What the code after the creation of a context leaves.
    abbrev pub closing : List Call
    closing = if native.context.handle == 0 then [] else destroy_context native.context.handle ∷ []

    -- A run that made no context threw; any other makes its context first, destroys it last, once and
    -- whatever happens between, and ends as the code in the context does.
    pub run_agent-closes :
        (thread : ℕ) (agent : Handle) (note : Option (Result ℕ))
        → ((e : Error) × ((run_agent os native thread agent note ≡ (threw e, []))
              ⊎ (run_agent os native thread agent note ≡ (threw e, create_context ∷ []))))
          ⊎ ((body : List Call) × AreInner body
              × (run_agent os native thread agent note
                  ≡ ((in_context os native note).0, create_context ∷ (body ++ closing))))
    unfolding run_agent call with_context
    run_agent-closes thread agent note =
        opened (Handle.get thread agent) (throw_if_error native.context.status) refl refl
      where
        opened :
            (r : Result ℕ) (s : Result (Unit {0}))
            → Handle.get thread agent ≡ r
            → throw_if_error native.context.status ≡ s
            → ((e : Error) × ((run_agent os native thread agent note ≡ (threw e, []))
                  ⊎ (run_agent os native thread agent note ≡ (threw e, create_context ∷ []))))
              ⊎ ((body : List Call) × AreInner body
                  × (run_agent os native thread agent note
                      ≡ ((in_context os native note).0, create_context ∷ (body ++ closing))))
        opened (err e) s g t = inl (e, inl (rw g refl))
        opened (ok h) (err e) g t = inl (e, inr (rw (g, t) refl))
        opened (ok h) (ok u) g t =
            inr ((in_context os native note).1, in_context-AreInner note, rw (g, t) refl)

    -- Where every call succeeds and the output, not empty and no longer than 60 KiB, is in the memory,
    -- the run gives this output, after these calls.
    pub run_agent-output :
        (thread : ℕ) (agent : Handle) (h d : ℕ) (bytes : Bytes)
        → Handle.get thread agent ≡ ok h
        → native.context.status ≡ 0
        → native.document_status ≡ 0
        → native.redirect_status ≡ 0
        → native.run_status ≡ 0
        → native.out_len ≢ 0
        → native.out_len ≤ 60 * 1024
        → native.out_hdl ≢ 0
        → native.out_memory ≡ some bytes
        → native.out_len ≤ length bytes
        → run_agent os native thread agent (some (ok d)) ≡ (
          done (some (to_string os (take native.out_len bytes))),
          create_context
              ∷ set_document
              ∷ redirect
              ∷ run
              ∷ query
              ∷ memory (lock native.out_hdl)
              ∷ memory (unlock native.out_hdl)
              ∷ closing,
        )
    unfolding run_agent call with_context in_context grab_output set_context throw_if_error is_error
        read_output construct Locker.destroy
    run_agent-output thread agent h d bytes opened c1 c2 c3 c4 nonempty small there memory_is
          enough =
        rw (opened, c1, c2, c3, c4) (ground arith)
