-- ===== src/Handle/Threads.antt =====
-- Calls from a thread that does not own the handle.
use dmn_cpp.Base.{ℕ, ◌≡◌, ◌≢◌, none, some, ok, err, thread_access_error, arith, ◌↔◌}
use dmn_cpp.Handle.{
  Handle, Closed, destroy, move_assign, release, reset, put, write_data, get, try_get,
}

-- Another thread gets nothing done: every checked call throws a thread access error, `try_get` is
-- empty, and the destructor and move assignment terminate the program.
pub foreign_thread :
    (thread n : ℕ) (h other : Handle) (closed : Closed)
    → thread ≢ h.owner
    → (release thread h ≡ err thread_access_error)
      × (reset thread h closed ≡ err thread_access_error)
      × (put thread n h closed ≡ err thread_access_error)
      × (write_data thread n h ≡ err thread_access_error)
      × (get thread h ≡ err thread_access_error)
      × (try_get thread h ≡ none)
      × (destroy thread h closed ≡ none)
      × (move_assign thread h other closed ≡ none)
unfolding release reset put write_data get try_get destroy move_assign
foreign_thread thread n h other closed p = ground arith

-- `try_get` gives a handle exactly where `get` does, and the same one.
pub try_get-get_iff :
    (thread n : ℕ) (h : Handle) → (try_get thread h ≡ some n) ↔ (get thread h ≡ ok n)
unfolding try_get get
try_get-get_iff thread n h = (λ e. ground arith, λ e. ground arith)
