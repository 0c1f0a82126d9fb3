-- ===== src/DatabasePath.antt =====
-- src/database.cpp, `get_path`. What NSFDbPathGet leaves in the buffer is an argument; a buffer without
-- a zero byte ends at its end, since a string's `c_str` has a zero byte there.
mod Slashes
use dmn_cpp.Base.{ℕ, Bool, List, [], ◌∷◌, map, Bytes, ◌==◌, if◌then◌else◌, Result, ok, ◌>>=◌, ◌>>◌}
use dmn_cpp.Status.{throw_if_error}
use dmn_cpp.Lmbcs.{Translate, to_string}

-- The bytes that `strlen` counts.
unfoldable pub c_str : Bytes → Bytes
c_str [] = []
c_str (c ∷ cs) = if c == 0 then [] else c ∷ c_str cs

unfoldable pub http_safe : ℕ → ℕ
http_safe c = if c == 92 then 47 else c

unfoldable pub get_path : Translate → Result ℕ → ℕ → Bytes → Result Bytes
unfolding c_str http_safe
get_path os db status buffer = do
  d ← db
  throw_if_error status
  ok (to_string os (map http_safe (c_str buffer)))
