-- ===== src/AttachedObject/Freed.antt =====
-- When the object of an agent's run information is freed.
use dmn_cpp.Base.{
  ℕ, suc, ◌+◌, ◌≡◌, ◌≢◌, refl, Bool, true, false, List, [], ◌∷◌, ◌++◌, map, append-nil, Option,
  Bytes, ◌==◌, if◌then◌else◌, Result, ok, err, arith,
}
use dmn_cpp.Base
use dmn_cpp.Handle.{Handle, put, make_empty, check_thread, is_owner_thread, reset, reset_unchecked}
use dmn_cpp.Handle
use dmn_cpp.Status.{throw_if_error}
use dmn_cpp.Cursor.{Outcome, done, threw, fault, lift, write, u16_bytes}
use dmn_cpp.Kind.{object, to_underlying}
use dmn_cpp.Traced.{Traced, ◌>>=◌, ◌>>◌, call, silent}
use dmn_cpp.Locker.{Made, Locker}
use dmn_cpp.Locker
use dmn_cpp.AttachedObject.{
  Call, alloc_object, write_object, free_object, append_object, memory, Object, make_object,
  cleanup, keeping, releasing, using, check_ownership, write_locked, new_memory, append_locked,
  append_to_note, RunInfo, write_run, fill_object, set_run_info,
}

abbrev is_free_object : Call → Bool
is_free_object (free_object h) = true
is_free_object c = false

-- How often an object is freed.
abbrev pub frees : List Call → ℕ
frees [] = 0
frees (c ∷ calls) = if is_free_object c then suc (frees calls) else frees calls

frees-append : (xs ys : List Call) → frees (xs ++ ys) ≡ frees xs + frees ys
frees-append [] ys = omega arith
frees-append (x ∷ xs) ys = ground (arith, frees-append xs ys)

frees-map_memory : (calls : List Locker.Call) → frees (map memory calls) ≡ 0
frees-map_memory [] = refl
frees-map_memory (c ∷ calls) = frees-map_memory calls

abbrev FreesNone : {A : Type 0} → Traced Call A → Type 0
FreesNone (r, calls) = frees calls ≡ 0

module _ {A B : Type 0} where
  >>=-frees :
      (first : Traced Call A) (next : A → Traced Call B)
      → FreesNone first
      → ((a : A) → FreesNone (next a))
      → FreesNone (first >>= next)
  >>=-frees (done a, calls) next h k = omega (arith, frees-append calls (next a).1, k a)
  >>=-frees (threw e, calls) next h k = h
  >>=-frees (fault, calls) next h k = h

releasing-frees :
    (l : Locker) (t : Traced Call (Unit {0})) → FreesNone t → FreesNone (releasing l t)
unfolding releasing
releasing-frees l (done u, calls) h = h
releasing-frees l (threw e, calls) h =
    omega (
      arith,
      frees-append calls (map memory (Locker.destroy l)),
      frees-map_memory (Locker.destroy l),
    )
releasing-frees l (fault, calls) h = h

using-frees :
    (made : Made) (body : Locker → Traced Call (Unit {0}))
    → ((l : Locker) → FreesNone (body l))
    → FreesNone (using made body)
unfolding using
using-frees (done l, calls) body h = omega (
  arith,
  frees-append (map memory calls) (releasing l (body l)).1,
  frees-map_memory calls,
  releasing-frees l (body l) (h l),
)
using-frees (threw e, calls) body h = frees-map_memory calls
using-frees (fault, calls) body h = frees-map_memory calls

call-frees :
    {A : Type 0} (o : Outcome A) (c : A → Call) (status : ℕ)
    → ((a : A) → is_free_object (c a) ≡ false)
    → FreesNone (silent {C = Call} o >>= λ a. call (c a) status)
unfolding call
call-frees o c status h = >>=-frees (silent o) (λ a. call (c a) status) refl (λ a. rw (h a) refl)

module _ (info : RunInfo) (thread : ℕ) where
  write_locked-frees :
      (status : ℕ) (o : Object) (l : Locker) → FreesNone (write_locked thread status o l)
  unfolding write_locked
  write_locked-frees status o l = >>=-frees (silent (check_ownership l.own)) _ refl λ u.
      >>=-frees (silent (lift o.db)) _ refl λ d.
        call-frees (lift (Handle.get thread o.hdl)) (λ h. write_object h l.hdl.pool) status
          (λ h. refl)

  write_run-frees : (o : Object) (l : Locker) → FreesNone (write_run info thread o l)
  unfolding write_run
  write_run-frees o l = >>=-frees (silent (write info.header l.cursor)) _ refl λ headed.
      >>=-frees (silent (write info.entry headed)) _ refl
        λ whole. write_locked-frees info.write_status o (record l { cursor = whole })

  append_locked-frees :
      (note : Result ℕ) (h : ℕ) (l : Locker)
      → FreesNone
          (append_locked info.descriptor info.descriptor_size info.item note info.append_status h l)
  unfolding append_locked
  append_locked-frees note h l =
      >>=-frees (silent (write (u16_bytes (to_underlying object)) l.cursor)) _ refl λ typed.
        >>=-frees (silent (write (info.descriptor h) typed)) _ refl λ whole.
          call-frees (lift note) (λ n. append_object l.hdl.pool whole.buffer) info.append_status
            (λ n. refl)

  fill_object-frees : (note : Result ℕ) (o : Object) → FreesNone (fill_object info thread note o)
  unfolding fill_object append_to_note
  fill_object-frees note o =
      >>=-frees
        (append_to_note info.descriptor info.descriptor_size info.item thread note
          info.append_status o)
        _
        (>>=-frees (silent (lift (Handle.get thread o.hdl))) _ refl λ h.
          using-frees (new_memory (2 + info.descriptor_size) info.item) _
            (λ l. append_locked-frees note h l))
        (λ u.
          using-frees (new_memory (info.header_size + info.entry_size) info.run) _
            (λ l. write_run-frees o l))

  -- How often the object is freed: once, where something was thrown and the object was allocated.
  abbrev pub Balanced : Result ℕ → Traced Call (Unit {0}) → Type 0
  Balanced db (done u, calls) = frees calls ≡ 0
  Balanced db (threw e, calls) =
      frees calls
      ≡ (elim (Base.◌>>=◌ db (λ d. throw_if_error info.object.status)) [ ok u ↦ 1 | err e ↦ 0 ])
  Balanced db (fault, calls) = frees calls ≡ 0

  made_lem :
      (d : ℕ)
      → throw_if_error info.object.status ≡ ok tt
      → make_object thread (ok d) (info.header_size + info.entry_size) info.object ≡ (
        done (record {
          db = ok d;
          hdl = record { hdl = info.object.handle; cleanup = true; owner = thread };
        }),
        alloc_object (info.header_size + info.entry_size) ∷ [],
      )
  unfolding make_object call put make_empty check_thread is_owner_thread reset reset_unchecked
  made_lem d e = rw e (ground arith)

  keeping-Balanced :
      (d : ℕ) (o : Object) (t : Traced Call (Unit {0}))
      → throw_if_error info.object.status ≡ ok tt
      → o.hdl.hdl ≢ 0
      → FreesNone t
      → Balanced
          (ok d)
          ((done tt, alloc_object (info.header_size + info.entry_size) ∷ []) >> keeping o t)
  unfolding keeping cleanup
  keeping-Balanced d o (done u, calls) e there none_freed = none_freed
  keeping-Balanced d o (threw x, calls) e there none_freed =
      rw e (ground (arith, frees-append calls (free_object o.hdl.hdl ∷ [])))
  keeping-Balanced d o (fault, calls) e there none_freed = none_freed

  set_run_info-cases :
      (db note : Result ℕ) (s : Result (Unit {0}))
      → info.object.handle ≢ 0
      → throw_if_error info.object.status ≡ s
      → Balanced db (set_run_info info thread db note)
  unfolding set_run_info make_object call
  set_run_info-cases (err x) note s there e = refl
  set_run_info-cases (ok d) note (err x) there e = rw (e, call) (rw e refl)
  set_run_info-cases (ok d) note (ok u) there e =
      let o : Object = record {
        db = ok d;
        hdl = record { hdl = info.object.handle; cleanup = true; owner = thread };
      } in
      rw (made_lem d e)
        (keeping-Balanced d o (fill_object info thread note o) e there (fill_object-frees note o))

  -- The object of an agent's run information, whose handle is not null where it is allocated, is freed
  -- once where `set_run_info` throws after its allocation, and is not freed where it does not throw, or
  -- was never allocated.
  pub set_run_info-Balanced :
      (db note : Result ℕ) → info.object.handle ≢ 0 → Balanced db (set_run_info info thread db note)
  set_run_info-Balanced db note there =
      set_run_info-cases db note (throw_if_error info.object.status) there refl
