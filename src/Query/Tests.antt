-- ===== src/Query/Tests.antt =====
-- A query that finds four notes, one of which is gone.
use dmn_cpp.Base.{ℕ, [], ◌∷◌, Option, none, some, Bytes, codes, ◌==◌, if◌then◌else◌}
use dmn_cpp.Dql.{Expression, expression, raw, string, nil}
use dmn_cpp.Query.{Table}

abbrev query : Expression Bytes
query = expression raw [] [] (string []) (codes "Size > 3") nil

abbrev note_of : ℕ → Option ℕ
note_of id = if id == 8 then none else some id

abbrev query_db : Bytes → Table
query_db text = record { status = 0; note_ids = 4 ∷ 8 ∷ 12 ∷ 16 ∷ [] }
