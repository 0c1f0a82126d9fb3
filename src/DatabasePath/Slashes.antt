-- ===== src/DatabasePath/Slashes.antt =====
-- The path of a database: what stands before the zero byte, without backslashes.
use dmn_cpp.Base.{ℕ, ◌≡◌, ◌≢◌, ap, refl, [], ◌∷◌, ◌++◌, map, Bytes, HasNoNul, ok, arith}
use dmn_cpp.Status.{throw_if_error}
use dmn_cpp.Lmbcs.{Translate, to_string}
use dmn_cpp.DatabasePath.{c_str, http_safe, get_path}

c_str-append : (path rest : Bytes) → HasNoNul path → c_str (path ++ 0 ∷ rest) ≡ path
unfolding c_str HasNoNul
c_str-append [] rest none_zero = refl
c_str-append (c ∷ cs) rest (is_char, are_chars) = ground (arith, c_str-append cs rest are_chars)

unfoldable HasNoBackslash : Bytes → Type 0
HasNoBackslash [] = Unit {0}
HasNoBackslash (c ∷ cs) = (c ≢ 92) × HasNoBackslash cs

map-HasNoBackslash : (path : Bytes) → HasNoBackslash (map http_safe path)
unfolding http_safe HasNoBackslash
map-HasNoBackslash [] = tt
map-HasNoBackslash (c ∷ cs) = (ground arith, map-HasNoBackslash cs)

-- Where the call succeeds, the path is what it wrote before a zero byte, with its backslashes turned; the
-- bytes behind the zero do not matter, and no backslash is left to convert.
get_path_lem :
    (os : Translate) (db : ℕ) (path rest : Bytes)
    → HasNoNul path
    → (turned : Bytes) × (get_path os (ok db) 0 (path ++ 0 ∷ rest) ≡ ok (to_string os turned))
      × HasNoBackslash turned
unfolding get_path throw_if_error
get_path_lem os db path rest chars = (
  map http_safe path,
  ap (λ p. ok (to_string os (map http_safe p))) (c_str-append path rest chars),
  map-HasNoBackslash path,
)
