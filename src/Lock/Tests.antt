-- ===== src/Lock/Tests.antt =====
-- A lock at concrete inputs.
use dmn_cpp.Base.{List, [], ◌∷◌, ok, err, invalid_handle}
use dmn_cpp.Lock.{Lock}
use dmn_cpp.Lock.Once.{Call, tries, unlocks}

-- A failure, an exception, a release, and a second release.
abbrev calls : List Call
calls = tries (ok 7) 1 ∷ unlocks (err invalid_handle) 0 ∷ unlocks (ok 7) 0 ∷ tries (ok 7) 0 ∷ []
