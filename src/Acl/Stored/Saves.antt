-- ===== src/Acl/Stored/Saves.antt =====
-- Which saves store the list as a new one, and what the name of the administration server holds.
use dmn_cpp.Base.{
  ℕ, ◌<◌, ◌≡◌, ◌≢◌, refl, ap, ◌∙◌, Bool, true, false, not, ◌&&◌, and_true, and_false, Bool-cases,
  inl, inr, List, [], ◌∷◌, ◌++◌, map, Bytes, length, ◌==◌, if◌then◌else◌, Result, ok, ◌>>=◌, arith,
}
use dmn_cpp.Handle.{Handle, write_data, make_empty, release, make, check_thread, is_owner_thread}
use dmn_cpp.Handle
use dmn_cpp.Status.{Answer, throw_if_error}
use dmn_cpp.Lmbcs.{Translate, to_string}
use dmn_cpp.Acl.Stored.{Manager, manage, read, create, stored, store_with, save, admin_server}

-- The flags of a run of saves, which the SDK answers with these statuses.
unfoldable pub saves : ℕ → List ℕ → Manager → List Bool
saves thread [] m = []
saves thread (s ∷ ss) m = let (r, after, calls) = save thread s m in calls ++ saves thread ss after

-- Whether the list is still new in each of a run of saves.
unfoldable pub still_new : Bool → List ℕ → List Bool
still_new new [] = []
still_new new (s ∷ ss) = new ∷ still_new (new && not (s == 0)) ss

handles_lem :
    (thread h d : ℕ) (db got : Result ℕ) → db ≡ ok d → got ≡ ok h → (db >>= λ d. got) ≡ ok h
handles_lem thread h d db got there opened = rw (there, opened) refl

-- A save where the handles are there.
save_lem :
    (thread h d status : ℕ) (m : Manager)
    → m.db ≡ ok d
    → Handle.get thread m.hdl ≡ ok h
    → save thread status m ≡ (
      throw_if_error status,
      (if status == 0 then record m { newly_created = false } else m),
      m.newly_created ∷ [],
    )
unfolding save store_with stored throw_if_error
save_lem thread h d status m there opened =
    ap (λ r. store_with r status m)
      (handles_lem thread h d (m.db) (Handle.get thread m.hdl) there opened)
    ∙ ground arith

saves-still_new :
    (thread h d : ℕ) (statuses : List ℕ) (m : Manager)
    → m.db ≡ ok d
    → Handle.get thread m.hdl ≡ ok h
    → saves thread statuses m ≡ still_new m.newly_created statuses
unfolding saves still_new
saves-still_new thread h d [] m there opened = refl
saves-still_new thread h d (s ∷ ss) m there opened =
    ap (λ (r : Result (Unit {0}) × Manager × List Bool). r.2 ++ saves thread ss r.1)
      (save_lem thread h d s m there opened)
    ∙ elim (Bool-cases (s == 0)) [
      | inl success ↦
          rw (success, and_false m.newly_created)
            (ap (λ l. m.newly_created ∷ l)
              (saves-still_new thread h d ss (record m { newly_created = false }) there opened))
      | inr failure ↦
          rw (failure, and_true m.newly_created)
            (ap (λ l. m.newly_created ∷ l) (saves-still_new thread h d ss m there opened))
    ]

still_new-false : (statuses : List ℕ) → still_new false statuses ≡ map (λ s. false) statuses
unfolding still_new
still_new-false [] = refl
still_new-false (s ∷ ss) = ap (λ l. false ∷ l) (still_new-false ss)

managed_lem :
    (thread d : ℕ) (created : Bool) (answer : Answer)
    → answer.status ≡ 0
    → manage thread (ok d) created answer
      ≡ ok (record {
        db = ok d;
        hdl = record { hdl = answer.handle; cleanup = true; owner = thread };
        newly_created = created;
      })
unfolding manage write_data make_empty release make throw_if_error check_thread is_owner_thread
managed_lem thread d created answer success = ground arith

opened_lem :
    (thread n : ℕ)
    → n ≢ 0
    → Handle.get thread (record { hdl = n; cleanup = true; owner = thread }) ≡ ok n
unfolding Handle.get check_thread is_owner_thread
opened_lem thread n there = ground arith

-- Saving in a row, whatever the SDK answers: a list that was made with `create` is stored as a new one
-- up to the first save that succeeds and not from then on, a list that was read never is.
pub saves_lem :
    (thread d : ℕ) (answer : Answer) (statuses : List ℕ)
    → answer.status ≡ 0
    → answer.handle ≢ 0
    → ((m : Manager) × (create thread (ok d) answer ≡ ok m)
        × (saves thread statuses m ≡ still_new true statuses))
      × ((m : Manager) × (read thread (ok d) answer ≡ ok m)
          × (saves thread statuses m ≡ map (λ s. false) statuses))
unfolding create read
saves_lem thread d answer statuses success there =
    let hdl : Handle = record { hdl = answer.handle; cleanup = true; owner = thread } in
    let opened = opened_lem thread answer.handle there in
    let created : Manager = record { db = ok d; hdl = hdl; newly_created = true } in
    let found : Manager = record { db = ok d; hdl = hdl; newly_created = false } in
    (
      (
        created,
        managed_lem thread d true answer success,
        saves-still_new thread answer.handle d statuses created refl opened,
      ),
      (
        found,
        managed_lem thread d false answer success,
        saves-still_new thread answer.handle d statuses found refl opened
            ∙ still_new-false statuses,
      ),
    )

-- The name of the administration server is the whole buffer: wherever a translation keeps the bytes,
-- MAXUSERNAME of them come out, so that a shorter name with zeros behind it is never what is returned.
pub admin_server_padded :
    (os : Translate) (thread h max_username : ℕ) (name rest : Bytes) (m : Manager)
    → Handle.get thread m.hdl ≡ ok h
    → ((b : Bytes) → to_string os b ≡ b)
    → length name < max_username
    → length (name ++ 0 ∷ rest) ≡ max_username
    → (admin_server os thread 0 (name ++ 0 ∷ rest) m ≡ ok (name ++ 0 ∷ rest))
      × (name ++ 0 ∷ rest ≢ name)
unfolding admin_server throw_if_error
admin_server_padded os thread h max_username name rest m opened keeps short whole = (
  rw (opened, keeps (name ++ 0 ∷ rest)) refl,
  λ e. omega (arith, whole, ap (λ (b : Bytes). length b) e),
)
