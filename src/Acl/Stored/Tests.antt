-- ===== src/Acl/Stored/Tests.antt =====
-- A new list whose first save the SDK refuses, and an administration server in a buffer of eight bytes.
use dmn_cpp.Base.{◌≡◌, refl, true, false, [], ◌∷◌, Bytes, ok, arith}
use dmn_cpp.Lmbcs.{Translate, to_string}
use dmn_cpp.Acl.Stored.{Manager, read, create}
use dmn_cpp.Acl.Stored.Saves.{saves, still_new, saves_lem}

saves_lem_example :
    ((m : Manager) × (create 1 (ok 2) (record { status = 0; handle = 5 }) ≡ ok m)
      × (saves 1 (4 ∷ 0 ∷ 0 ∷ []) m ≡ true ∷ true ∷ false ∷ []))
    × ((m : Manager) × (read 1 (ok 2) (record { status = 0; handle = 5 }) ≡ ok m)
        × (saves 1 (4 ∷ 0 ∷ 0 ∷ []) m ≡ false ∷ false ∷ false ∷ []))
unfolding still_new
saves_lem_example =
    saves_lem 1 2 (record { status = 0; handle = 5 }) (4 ∷ 0 ∷ 0 ∷ []) refl (omega arith)

abbrev os : Translate
os = record { lmbcs_to_utf8 = λ s n. s; utf8_to_lmbcs = λ s n. s }

kept_lem : (b : Bytes) → to_string os b ≡ b
unfolding to_string
kept_lem [] = refl
kept_lem (c ∷ cs) = refl

abbrev manager : Manager
manager = record {
  db = ok 2;
  hdl = record { hdl = 5; cleanup = true; owner = 1 };
  newly_created = false;
}
