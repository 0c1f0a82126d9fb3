-- ===== src/Locker/Tests.antt =====
-- Lockers over small blocks.
use dmn_cpp.Base.{◌≡◌, refl, [], ◌∷◌, some, Bytes, invalid_argument, arith}
use dmn_cpp.Status.{Answer}
use dmn_cpp.Cursor.{threw}
use dmn_cpp.Locker.{take_it, free, Block, lock, unlock, mem_free, construct_all, clone}
use dmn_cpp.Locker.Balance.{protocol, lifetime, construct_all-protocol}

abbrev place : Block
place = record { pool = 7; block = 2 }

abbrev five_long : Answer
five_long = record { status = 0; handle = 5 }

clone_empty_run :
    (clone
      (record { cursor = record { buffer = []; offset = 0 }; size = 4; own = free; hdl = place })
      five_long
      (some [])).0
    ≡ threw invalid_argument
unfolding clone
clone_empty_run = refl

construct_all-protocol_example :
    lifetime (construct_all place take_it five_long (some (1 ∷ 2 ∷ 3 ∷ [])))
    ≡ lock 7 ∷ unlock 7 ∷ mem_free 7 ∷ []
unfolding protocol
construct_all-protocol_example =
    construct_all-protocol place take_it five_long (1 ∷ 2 ∷ 3 ∷ []) (omega arith) (omega arith)

abbrev two_bytes : Bytes
two_bytes = 8 ∷ 9 ∷ []
