-- ===== src/Note/Saved.antt =====
-- Saving a note that owns its handle closes it; a note without one opens itself once and keeps the handle
-- in the store.
use dmn_cpp.Base.{
  ℕ, ◌≡◌, ◌≢◌, ◌∙◌, ap, refl, Bool, true, false, List, [], ◌∷◌, ◌++◌, none, some, Result, ok, err,
  native_error, arith, inl, inr,
}
use dmn_cpp.Handle.{Handle, destroy, reset_unchecked}
use dmn_cpp.Handle
use dmn_cpp.Status.{Answer, throw_if_error}
use dmn_cpp.Store.{Shared, Store, insert, lookup, find, remove_stale}
use dmn_cpp.Store.Caching.{
  IsMap, AllAlive, Holds, remove_stale_fixed, find_cases, cleaned-IsMap, cleaned-AllAlive,
}
use dmn_cpp.Note.Handles.{
  State, open_new, open_missing, get_handle, drop_handle, saved, finish_save, update_note, save,
}

get_lem : (thread : ℕ) (h : Handle) → h.owner ≡ thread → h.hdl ≢ 0 → Handle.get thread h ≡ ok h.hdl
unfolding Handle.get
get_lem thread h own valid = ground arith

handle_owned :
    (alive : ℕ → Bool) (thread : ℕ) (shared : Shared) (answer : Answer) (st : State) (h : Handle)
    (store : Store)
    → st.hdl ≡ some h
    → h.owner ≡ thread
    → h.hdl ≢ 0
    → get_handle alive thread shared answer st store ≡ (ok h.hdl, store, false)
unfolding get_handle
handle_owned alive thread shared answer st h store e own valid = rw (e, get_lem thread h own valid)

destroyed :
    (thread : ℕ) (h : Handle) (closed : List ℕ)
    → h.owner ≡ thread
    → h.cleanup ≡ true
    → h.hdl ≢ 0
    → destroy thread h closed ≡ some (closed ++ h.hdl ∷ [])
unfolding destroy reset_unchecked
destroyed thread h closed own clean valid = ground arith

dropped_lem :
    (thread note_id : ℕ) (st : State) (h : Handle) (store : Store)
    → st.hdl ≡ some h
    → h.owner ≡ thread
    → h.cleanup ≡ true
    → h.hdl ≢ 0
    → saved note_id st (drop_handle thread st.hdl store)
      ≡ some (
        ok tt,
        record st { note_id = note_id; hdl = none },
        record store { closed = store.closed ++ h.hdl ∷ [] },
      )
unfolding saved drop_handle
dropped_lem thread note_id st h store e own clean valid =
    ap (λ o. saved note_id st (drop_handle thread o store)) e
    ∙ rw (saved, drop_handle, destroyed thread h store.closed own clean valid)

update_lem :
    (alive : ℕ → Bool) (thread : ℕ) (shared : Shared) (answer : Answer) (note_id k : ℕ) (st : State)
    (store : Store) (called : Bool)
    → get_handle alive thread shared answer st store ≡ (ok k, store, false)
    → update_note alive thread shared answer 0 note_id st (ok k, store, called)
      ≡ saved note_id st (drop_handle thread st.hdl store)
unfolding update_note throw_if_error finish_save
update_lem alive thread shared answer note_id k st store called again =
    rw (update_note, again, finish_save)

module _ (alive : ℕ → Bool) (thread : ℕ) (shared : Shared) where
  -- Saving, with success, a note that owns its handle, on its thread: the note has the id that it got on disk, owns
  -- no handle any more, and the handle is closed once. The store is not asked and keeps its entries.
  pub save_created :
      (answer : Answer) (note_id : ℕ) (st : State) (h : Handle) (store : Store)
      → st.hdl ≡ some h
      → h.owner ≡ thread
      → h.cleanup ≡ true
      → h.hdl ≢ 0
      → save alive thread shared answer 0 note_id st store
        ≡ some (
          ok tt,
          record st { note_id = note_id; hdl = none },
          record store { closed = store.closed ++ h.hdl ∷ [] },
        )
  unfolding save
  save_created answer note_id st h store e own clean valid =
      let found = handle_owned alive thread shared answer st h store e own valid in
      rw found (
        update_lem alive thread shared answer note_id h.hdl st store false found
        ∙ dropped_lem thread note_id st h store e own clean valid)

  -- Where the update fails, `save` throws its code, and the note keeps its handle and its id.
  pub save_failed :
      (answer : Answer) (status note_id : ℕ) (st : State) (h : Handle) (store : Store)
      → st.hdl ≡ some h
      → h.owner ≡ thread
      → h.hdl ≢ 0
      → status ≢ 0
      → save alive thread shared answer status note_id st store
        ≡ some (err (native_error status), st, store)
  unfolding save update_note throw_if_error
  save_failed answer status note_id st h store e own valid failed =
      let found = handle_owned alive thread shared answer st h store e own valid in
      rw (found, update_note) (ground arith)

module _ (alive : ℕ → Bool) (thread : ℕ) (shared : Shared) (live : alive shared.object ≡ true) where
  find_held :
      (h : ℕ) (store : Store) (held : Holds alive shared h store)
      → find alive shared store ≡ (some held.entry, store)
  unfolding find
  find_held h store held = ground (arith, held.there, held.same, live)

  Holds-handle :
      (answer : Answer) (st : State) (h : ℕ) (store : Store)
      → st.hdl ≡ none
      → Holds alive shared h store
      → get_handle alive thread shared answer st store ≡ (ok h, store, false)
  unfolding get_handle open_missing
  Holds-handle answer st h store e held =
      let fixed = remove_stale_fixed alive store held.all_alive in
      rw (e, fixed, find_held h store held) (ap (λ r. (r, store, false)) held.handle)

  open_new-Holds :
      (answer : Answer) (db : Result ℕ) (h : ℕ) (store : Store)
      → AllAlive alive store.entries
      → lookup shared.address store.entries ≡ none
      → (open_new shared answer db store).0 ≡ ok h
      → Holds alive shared h (open_new shared answer db store).1
  unfolding open_new insert throw_if_error lookup
  open_new-Holds answer (err e) h store all missing p = cc
  open_new-Holds answer (ok d) h store all missing p = record {
    entry = record { address = shared.address; object = shared.object; handle = answer.handle };
    all_alive = ground (arith, missing, live, all);
    there = ground (arith, missing);
    same = refl;
    handle = ground (arith, missing);
  }

  handle-Holds :
      (answer : Answer) (st : State) (h : ℕ) (store : Store)
      → st.hdl ≡ none
      → IsMap store.entries
      → (get_handle alive thread shared answer st store).0 ≡ ok h
      → Holds alive shared h (get_handle alive thread shared answer st store).1
  unfolding get_handle open_missing
  handle-Holds answer st h store e m p =
      elim (find_cases alive shared h (remove_stale alive store) (cleaned-IsMap alive store m)
        (cleaned-AllAlive alive store)) [
          | inl (x, found, there, same) ↦
              rw (e, found)
                (record {
                  entry = x;
                  all_alive = cleaned-AllAlive alive store;
                  there = there;
                  same = same;
                  handle = rw (e, found) at p;
                })
          | inr (after, lost, fresh, missing) ↦
              rw (e, lost) (open_new-Holds answer st.db h after fresh missing (rw (e, lost) at p))
        ]

-- A note that owns no handle, whose object lives, opens itself once: where the store has at most one
-- entry for an address, after a `get_handle` that returned a handle, the next one on the same thread
-- returns the same handle, makes no native call and leaves the store as it is.
pub handle_cached :
    (alive : ℕ → Bool) (thread : ℕ) (shared : Shared) (first second : Answer) (st : State) (h : ℕ)
    (store : Store)
    → st.hdl ≡ none
    → alive shared.object ≡ true
    → IsMap store.entries
    → (get_handle alive thread shared first st store).0 ≡ ok h
    → let after = (get_handle alive thread shared first st store).1 in
      get_handle alive thread shared second st after ≡ (ok h, after, false)
handle_cached alive thread shared first second st h store e live m p =
    Holds-handle alive thread shared live second st h _ e
      (handle-Holds alive thread shared live first st h store e m p)
