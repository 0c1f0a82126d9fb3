-- ===== src/AttachedObject/Tests.antt =====
-- An object of an agent's run information, and its item on a note.
use dmn_cpp.Base.{ℕ, ◌≡◌, refl, true, [], ◌∷◌, some, Bytes, ok, native_error, arith}
use dmn_cpp.Handle
use dmn_cpp.Handle.{Handle}
use dmn_cpp.Status.{throw_if_error}
use dmn_cpp.Cursor.{threw}
use dmn_cpp.AttachedObject.{Object, Allocated, RunInfo, set_run_info}
use dmn_cpp.AttachedObject.Freed.{frees, set_run_info-Balanced}

abbrev item : Allocated
item = record { answer = record { status = 0; handle = 4 }; locked = some (0 ∷ 0 ∷ 0 ∷ 0 ∷ []) }

abbrev run : Allocated
run = record { answer = record { status = 0; handle = 6 }; locked = some (0 ∷ 0 ∷ []) }

abbrev descriptor : ℕ → Bytes
descriptor h = 8 ∷ h ∷ []

abbrev object : Object
object = record { db = ok 1; hdl = record { hdl = 9; cleanup = true; owner = 2 } }

abbrev info : RunInfo
info = record {
  object = record { status = 0; handle = 9 };
  item = item;
  append_status = 0;
  run = run;
  write_status = 5;
  descriptor = descriptor;
  descriptor_size = 2;
  header = 1 ∷ [];
  header_size = 1;
  entry = 2 ∷ [];
  entry_size = 1;
}

-- The SDK refuses the data.
refused_lem : (set_run_info info 2 (ok 1) (ok 3)).0 ≡ threw (native_error 5)
unfolding set_run_info Handle.put Handle.get
refused_lem = refl

set_run_info-Balanced_example : frees (set_run_info info 2 (ok 1) (ok 3)).1 ≡ 1
unfolding set_run_info throw_if_error Handle.put Handle.get
set_run_info-Balanced_example = set_run_info-Balanced info 2 (ok 1) (ok 3) (omega arith)
