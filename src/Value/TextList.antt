-- ===== src/Value/TextList.antt =====
-- Text lists as src/value.cpp, `as_string`, reads them.
use dmn_cpp.Base.{
  ℕ, ◌+◌, ◌-◌, ◌^◌, ◌≤◌, ◌<◌, ◌≡◌, refl, ap, true, false, List, [], ◌∷◌, ◌++◌, map, Option, some,
  Bytes, length, length-append, append_assoc, take, take-append, ltb, leb, arith,
}
use dmn_cpp.Kind.{text_list, to_underlying}
use dmn_cpp.Lmbcs.{Translate, to_string}
use dmn_cpp.Cursor.{done, make, read_u16, u16_bytes, u16_of}
use dmn_cpp.Cursor.Transfer.{flatten}
use dmn_cpp.Cursor.Held.{
  At, at, At-split, At-all, read-At, bytes_at_lem, advance_at, lengths_bytes, AllShort, lengths_at,
}
use dmn_cpp.Value.{text_entries, read_text_list, typed_string, as_string, data_pair}

-- Texts with a semicolon between them.
unfoldable pub join : List Bytes → Bytes
join [] = []
join (t ∷ []) = t
join (t ∷ u ∷ us) = t ++ (b';' ∷ join (u ∷ us))

-- Texts with a semicolon behind each.
unfoldable pub terminated : List Bytes → Bytes
terminated [] = []
terminated (t ∷ ts) = t ++ (b';' ∷ terminated ts)

terminated-join : (t : Bytes) (ts : List Bytes) → terminated (t ∷ ts) ≡ join (t ∷ ts) ++ (b';' ∷ [])
unfolding terminated join
terminated-join t [] = refl
terminated-join t (u ∷ us) =
    rw (append_assoc t (b';' ∷ join (u ∷ us)) (b';' ∷ []))
      (ap (λ r. t ++ (b';' ∷ r)) (terminated-join u us))

-- The memory of a text list.
unfoldable pub list_memory : List Bytes → Bytes
list_memory texts =
    u16_bytes (to_underlying text_list)
    ++ (u16_bytes (length texts) ++ (lengths_bytes texts ++ flatten texts))

without_last : (ts : List Bytes) → take (length (terminated ts) - 1) (terminated ts) ≡ join ts
unfolding terminated join
without_last [] = refl
without_last (t ∷ ts) =
    let e : length (join (t ∷ ts) ++ (b';' ∷ [])) - 1 ≡ length (join (t ∷ ts)) =
      omega (arith, length-append (join (t ∷ ts)) (b';' ∷ [])) in
    rw (terminated-join t ts, e, take-append (join (t ∷ ts)) (b';' ∷ []))

-- The type in front of a value.
pub data_pair-At :
    (memory : Bytes) (n : ℕ)
    → n < 2 ^ 16
    → length memory < 2 ^ 32
    → At memory 0 (u16_bytes n)
    → data_pair memory ≡ done (n, at memory 2)
unfolding data_pair read_u16 make
data_pair-At memory n few small a =
    let e : u16_of (u16_bytes n) ≡ n = omega arith in rw (read-At memory 0 (u16_bytes n) small a, e)

list_memory-split :
    (texts : List Bytes)
    → At (list_memory texts) 0 (u16_bytes 1281)
      × At
          (list_memory texts)
          2
          (u16_bytes (length texts) ++ (lengths_bytes texts ++ flatten texts))
unfolding list_memory to_underlying
list_memory-split texts =
    At-split (list_memory texts) 0 (u16_bytes 1281)
      (u16_bytes (length texts) ++ (lengths_bytes texts ++ flatten texts))
      (At-all (list_memory texts))

list_memory-long : (texts : List Bytes) → 4 ≤ length (list_memory texts)
unfolding list_memory
list_memory-long texts = omega arith

module _ (os : Translate) where
  entries_at :
      (memory : Bytes) (p : ℕ) (texts : List Bytes)
      → length memory < 2 ^ 32
      → At memory p (flatten texts)
      → text_entries os (map length texts) (at memory p)
        ≡ done (terminated (map (to_string os) texts))
  unfolding text_entries flatten terminated
  entries_at memory p [] small a = refl
  entries_at memory p (t ∷ ts) small a =
      let (first, rest) = At-split memory p t (flatten ts) a in
      rw (
        bytes_at_lem memory p t first,
        advance_at memory p t small first,
        entries_at memory (p + length t) ts small rest,
      )

  text_list_at :
      (memory : Bytes) (texts : List Bytes)
      → length texts < 2 ^ 16
      → AllShort texts
      → length memory < 2 ^ 32
      → At memory 2 (u16_bytes (length texts) ++ (lengths_bytes texts ++ flatten texts))
      → read_text_list os (at memory 2) ≡ done (join (map (to_string os) texts))
  unfolding read_text_list read_u16
  text_list_at memory texts few short small a =
      let (a₁, r₁) =
        At-split memory 2 (u16_bytes (length texts)) (lengths_bytes texts ++ flatten texts) a in
      let (a₂, r₂) = At-split memory 4 (lengths_bytes texts) (flatten texts) r₁ in
      let count : u16_of (u16_bytes (length texts)) ≡ length texts = omega arith in
      rw
        (
          read-At memory 2 (u16_bytes (length texts)) small a₁,
          count,
          lengths_at memory 4 texts small short a₂,
          entries_at memory (4 + length (lengths_bytes texts)) texts small r₂,
        )
        (ap done (without_last (map (to_string os) texts)))

  -- A text list, its number of texts and the length of each below 2 ^ 16 and its memory below 4
  -- GiB, is read as the texts, converted, with a semicolon between one and the next.
  pub as_string-list :
      (to_chars rfc3339 : Bytes → Option Bytes) (texts : List Bytes)
      → length texts < 2 ^ 16
      → AllShort texts
      → length (list_memory texts) < 2 ^ 32
      → as_string os to_chars rfc3339 (list_memory texts)
        ≡ done (some (join (map (to_string os) texts)))
  unfolding as_string typed_string to_underlying
  as_string-list to_chars rfc3339 texts few short small =
      let (typed, rest) = list_memory-split texts in
      let long : ltb (length (list_memory texts)) 2 ≡ false =
        ground (arith, list_memory-long texts) in
      let room : leb 2 (length (list_memory texts) - 2) ≡ true =
        ground (arith, list_memory-long texts) in
      rw (
        long,
        data_pair-At (list_memory texts) 1281 (omega arith) small typed,
        room,
        text_list_at (list_memory texts) texts few short small rest,
      )
