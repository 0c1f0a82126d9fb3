-- ===== src/Design/AgentTests.antt =====
-- Action items of agents with headers of one to three bytes.
use dmn_cpp.Base.{◌≡◌, refl, [], ◌∷◌, some, length, replicate, length-replicate, arith}
use dmn_cpp.Cursor.{done}
use dmn_cpp.Formula.{Native}
use dmn_cpp.Locker.{allocate_impl}
use dmn_cpp.Design.Format.{Alloc}
use dmn_cpp.Design.Format.Built.{Allocates}
use dmn_cpp.Design.Agent.{Ods, formula_item}
use dmn_cpp.Design.Agent.Actions.{Images}

abbrev ods : Ods
ods = record {
  action_header = λ n. n ∷ [];
  lotusscript_header = λ n k. n ∷ k ∷ [];
  formula_header = λ n k. n ∷ k ∷ 0 ∷ [];
  action_header_size = 1;
  lotusscript_header_size = 2;
  formula_header_size = 3;
}

images : Images ods
images = record { action = λ n. refl; lotusscript = λ n k. refl; formula = λ n k. refl }

-- A memory is not zero when it is new.
abbrev alloc : Alloc
alloc n = (record { status = 0; handle = 7 }, some (replicate n 170))

allocates : Allocates alloc
allocates = λ n. (refl, (λ e. omega (arith, e)), (replicate n 170, refl, length-replicate n 170))

abbrev sdk : Native
sdk = record {
  get_size = λ memory. record { status = 0; handle = length memory };
  realloc = λ n memory. (0, memory);
  summary_item = λ item_name memory. (0, memory);
  merge_call = λ other memory. (0, memory);
}

odd_run :
    formula_item ods alloc sdk (1 ∷ 2 ∷ 3 ∷ [])
    ≡ done (16 ∷ 0 ∷ 1 ∷ 7 ∷ 4 ∷ 0 ∷ 1 ∷ 2 ∷ 3 ∷ 170 ∷ [])
unfolding formula_item allocate_impl
odd_run = refl
