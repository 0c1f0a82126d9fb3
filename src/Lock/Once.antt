-- ===== src/Lock/Once.antt =====
-- A lock that was acquired is released once, over any calls that C++ defines: src/note_lock.cpp.
use dmn_cpp.Base.{
  ℕ, ◌≡◌, Bool, true, false, not, List, [], ◌∷◌, some, if◌then◌else◌, Result, ok, err, Error,
  native_error, guard, ◌>>◌, ap, ◌∙◌, arith, ◌↔◌,
}
use dmn_cpp.Status.{Codes, is_error, is_locked, throw_if_error}
use dmn_cpp.Cursor.{Outcome, done, threw, fault, ◌>>=◌}
use dmn_cpp.Lock.{Lock, make, move_from, lock_note, acquire, try_acquire, try_unlock, unlock}

-- A call on a lock: which one, what `database::get_handle` does, and the answer of the native call.
pub data Call : Type 0 where
  tries unlocks : Result ℕ → ℕ → Call
  moves : Call

abbrev pub Held : Type 0
Held = Lock × ℕ

after_try : Outcome (Bool × Lock × ℕ) → Outcome Held
after_try (done (b, lock, released)) = done (lock, released)
after_try (threw e) = threw e
after_try fault = fault

after_unlock : Held → Result (Lock × ℕ) → Held
after_unlock h (ok (lock, released)) = (lock, released)
after_unlock h (err e) = h

-- A call that throws leaves what there was; a move goes on with the new object.
unfoldable pub step : Call → Held → Outcome Held
unfolding after_try after_unlock try_unlock unlock move_from
step (tries db native) (lock, released) = after_try (try_unlock db native lock released)
step (unlocks db native) (lock, released) =
    done (after_unlock (lock, released) (unlock db native lock released))
step moves (lock, released) = done ((move_from lock).0, released)

unfoldable pub run : List Call → Held → Outcome Held
unfolding step
run [] h = done h
run (c ∷ cs) h = do next ← step c h; run cs next

-- Each `try_unlock` finds a database handle: without one it dereferences an empty optional.
abbrev pub IsAvailable : Call → Type 0
IsAvailable (tries (ok handle) native) = Unit {0}
IsAvailable (tries (err e) native) = ⊥
IsAvailable (unlocks db native) = Unit {0}
IsAvailable moves = Unit {0}

abbrev pub AreAvailable : List Call → Type 0
AreAvailable [] = Unit {0}
AreAvailable (c ∷ cs) = IsAvailable c × AreAvailable cs

abbrev pub owned : Held → ℕ
owned (lock, released) = if lock.owns_lock then 1 else 0

-- Where the database gives no handle, `try_acquire` dereferences an empty optional, and so does
-- `try_unlock` with a lock that is owned; with one that is not, it answers true.
pub unavailable_lem :
    (e : Error) (user native note_id released : ℕ) (lock : Lock)
    → (try_acquire (err e) user native note_id ≡ fault)
      × (lock.owns_lock ≡ true → try_unlock (err e) native lock released ≡ fault)
      × (lock.owns_lock ≡ false
          → try_unlock (err e) native lock released ≡ done (true, lock, released))
unfolding try_acquire try_unlock
unavailable_lem e user native note_id released lock = ground arith

guards_lem :
    (locked : Bool) (r : ℕ) (lock : Lock)
    → (r ≡ 0 → locked ≡ false)
    → (do guard (not locked) (native_error r); throw_if_error r; ok lock)
      ≡ (if is_error r then err (native_error r) else ok lock)
unfolding throw_if_error is_error
guards_lem true r lock h = ground arith
guards_lem false r lock h = ground arith

-- Where the database gives a handle and success is no code of a lock that is held, `acquire` returns a
-- lock exactly where `try_acquire` does, and the same one.
pub acquire-try_acquire_iff :
    (codes : Codes) (handle user native note_id : ℕ) (lock : Lock)
    → is_locked codes 0 ≡ false
    → (acquire codes (ok handle) user native note_id ≡ ok lock)
      ↔ (try_acquire (ok handle) user native note_id ≡ done (some lock))
unfolding acquire try_acquire
acquire-try_acquire_iff codes handle user native note_id lock free =
    let r = lock_note user native in
    let e = guards_lem (is_locked codes r) r (make note_id) (λ z. ap (is_locked codes) z ∙ free) in
    rw e (ground arith)
