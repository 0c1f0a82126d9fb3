-- ===== src/Cursor/Transfer.antt =====
-- What is written is read back, and a chain of writes lays its pieces one after the other.
use dmn_cpp.Base.{
  ℕ, ◌+◌, ◌^◌, ◌≤◌, ◌<◌, ◌≡◌, ap, sym, ◌∙◌, List, [], ◌∷◌, ◌++◌, append_assoc, append-nil, Bytes,
  length, take, drop, length-take, length-drop, length-append, take-append, drop-append,
  take-append-drop, subst, arith,
}
use native.Mathlib.Nat.{add_assoc}
use dmn_cpp.Cursor.{Cursor, done, read, write, write_all, set_offset}
use dmn_cpp.Cursor.Bounds.{read_lem, write_lem}

unfoldable pub flatten : List Bytes → Bytes
flatten [] = []
flatten (b ∷ bs) = b ++ flatten bs

length-take_of_le : (n : ℕ) (xs : Bytes) → n ≤ length xs → length (take n xs) ≡ n
length-take_of_le n xs h = omega (arith, length-take n xs)

take-append_at : (n : ℕ) (xs ys : Bytes) → length xs ≡ n → take n (xs ++ ys) ≡ xs
take-append_at n xs ys e = rw (← e) (take-append xs ys)

drop-append_at : (n : ℕ) (xs ys : Bytes) → length xs ≡ n → drop n (xs ++ ys) ≡ ys
drop-append_at n xs ys e = rw (← e) (drop-append xs ys)

length-splice :
    (pre old post bytes : Bytes)
    → length bytes ≡ length old
    → length (pre ++ (bytes ++ post)) ≡ length (pre ++ (old ++ post))
length-splice pre old post bytes e = omega (
  arith,
  e,
  length-append pre (bytes ++ post),
  length-append bytes post,
  length-append pre (old ++ post),
  length-append old post,
)

-- A write over bytes as many as its own, wherever they stand.
write_over :
    (pre old post bytes : Bytes)
    → length bytes ≡ length old
    → length (pre ++ (old ++ post)) < 2 ^ 32
    → write bytes (record { buffer = pre ++ (old ++ post); offset = length pre })
      ≡ done (record { buffer = pre ++ (bytes ++ post); offset = length pre + length bytes })
write_over pre old post bytes e small =
    (write_lem bytes (record { buffer = pre ++ (old ++ post); offset = length pre }) below within).0
      inside
    ∙ rw (take-append pre (old ++ post), rest)
  where
    total : length (pre ++ (old ++ post)) ≡ length pre + (length old + length post)
    total = omega (arith, length-append pre (old ++ post), length-append old post)

    below : length bytes < 2 ^ 32
    below = omega (arith, total)

    within : length pre + length bytes < 2 ^ 64
    within = omega (arith, total)

    inside : length pre + length bytes ≤ length (pre ++ (old ++ post))
    inside = omega (arith, total)

    rest : drop (length pre + length bytes) (pre ++ (old ++ post)) ≡ post
    rest =
        ap (λ (b : Bytes). drop (length pre + length bytes) b) (sym (append_assoc pre old post))
        ∙ drop-append_at (length pre + length bytes) (pre ++ old) post
            (omega (arith, length-append pre old, e))

-- The first piece of a chain, over the first part of the stretch.
write_all_step :
    (b : Bytes) (bs : List Bytes) (pre o₁ o₂ post : Bytes)
    → length b ≡ length o₁
    → length (pre ++ ((o₁ ++ o₂) ++ post)) < 2 ^ 32
    → write_all bs (record { buffer = (pre ++ b) ++ (o₂ ++ post); offset = length (pre ++ b) })
      ≡ done (record {
        buffer = (pre ++ b) ++ (flatten bs ++ post);
        offset = length (pre ++ b) + length (flatten bs);
      })
    → write_all (b ∷ bs) (record { buffer = pre ++ ((o₁ ++ o₂) ++ post); offset = length pre })
      ≡ done (record {
        buffer = pre ++ (flatten (b ∷ bs) ++ post);
        offset = length pre + length (flatten (b ∷ bs));
      })
unfolding write_all flatten
write_all_step b bs pre o₁ o₂ post e small ih =
    let ih' =
      rw
        (
          append_assoc pre b (o₂ ++ post),
          append_assoc pre b (flatten bs ++ post),
          length-append pre b,
        )
        at ih in
    rw
      (
        append_assoc o₁ o₂ post,
        write_over pre o₁ (o₂ ++ post) b e (rw (append_assoc o₁ o₂ post) at small),
      )
      (ih'
        ∙ rw (
          append_assoc b (flatten bs) post,
          length-append b (flatten bs),
          add_assoc (length pre) (length b) (length (flatten bs)),
        ))

-- Pieces written one by one over a stretch of memory as long as they are together.
pub write_all_over :
    (pieces : List Bytes) (pre old post : Bytes)
    → length (flatten pieces) ≡ length old
    → length (pre ++ (old ++ post)) < 2 ^ 32
    → write_all pieces (record { buffer = pre ++ (old ++ post); offset = length pre })
      ≡ done (record {
        buffer = pre ++ (flatten pieces ++ post);
        offset = length pre + length (flatten pieces);
      })
unfolding write_all flatten
write_all_over [] pre [] post e small =
    ap (λ (n : ℕ). done (record { buffer = pre ++ post; offset = n })) (omega arith)
write_all_over [] pre (x ∷ old) post e small = absurd (omega arith)
write_all_over (b ∷ bs) pre old post e small =
    let n = length b in
    let whole = take-append-drop n old in
    let fits : n ≤ length old = omega (arith, e, length-append b (flatten bs)) in
    subst
      (λ (o : Bytes).
        write_all (b ∷ bs) (record { buffer = pre ++ (o ++ post); offset = length pre })
        ≡ done (record {
          buffer = pre ++ (flatten (b ∷ bs) ++ post);
          offset = length pre + length (flatten (b ∷ bs));
        }))
      whole
      (write_all_step b bs pre (take n old) (drop n old) post (omega (arith, length-take n old))
        (rw whole small)
        (write_all_over bs (pre ++ b) (drop n old) post
          (omega (arith, e, length-append b (flatten bs), length-drop n old))
          (omega (
            arith,
            e,
            length-append b (flatten bs),
            length-drop n old,
            length-append pre (old ++ post),
            length-append old post,
            length-append (pre ++ b) (drop n old ++ post),
            length-append pre b,
            length-append (drop n old) post,
          ))))

-- Writing pieces into a fresh memory of exactly their length, less than 4 GiB, fills it with the pieces in order,
-- and throws nothing.
pub write_all-exact :
    (pieces : List Bytes) (fresh : Bytes)
    → length fresh ≡ length (flatten pieces)
    → length fresh < 2 ^ 32
    → write_all pieces (record { buffer = fresh; offset = 0 })
      ≡ done (record { buffer = flatten pieces; offset = length fresh })
write_all-exact pieces fresh e small =
    let placed = write_all_over pieces [] fresh [] (sym e) (rw (append-nil fresh) small) in
    rw (append-nil fresh, append-nil (flatten pieces)) at placed
    ∙ ap (λ (n : ℕ). done (record { buffer = flatten pieces; offset = n })) (omega (arith, e))

-- Bytes written inside the memory are read back from the same place, the memory keeps its size, and
-- the bytes before and after keep their values.
pub read-write :
    (bytes : Bytes) (c : Cursor)
    → length bytes < 2 ^ 32
    → c.offset + length bytes < 2 ^ 64
    → c.offset + length bytes ≤ length c.buffer
    → (after : Cursor) × (write bytes c ≡ done after)
      × (read (length bytes) (set_offset c.offset after) ≡ done (bytes, after))
      × (length after.buffer ≡ length c.buffer)
      × (take c.offset after.buffer ≡ take c.offset c.buffer)
      × (drop after.offset after.buffer ≡ drop (c.offset + length bytes) c.buffer)
unfolding set_offset
read-write bytes c small fits inside = (
  record { buffer = buffer; offset = c.offset + length bytes },
  (write_lem bytes c small fits).0 inside,
  (read_lem (length bytes) (record { buffer = buffer; offset = c.offset }) small fits).0
        (omega (arith, same_size))
      ∙ rw (drop-append_at c.offset before (bytes ++ after) before_size, take-append bytes after),
  same_size,
  take-append_at c.offset before (bytes ++ after) before_size,
  ap (λ (b : Bytes). drop (c.offset + length bytes) b) (sym (append_assoc before bytes after))
      ∙ drop-append_at (c.offset + length bytes) (before ++ bytes) after
          (omega (arith, length-append before bytes, before_size)),
)
  where
    before : Bytes
    before = take c.offset c.buffer

    after : Bytes
    after = drop (c.offset + length bytes) c.buffer

    buffer : Bytes
    buffer = before ++ (bytes ++ after)

    before_size : length (take c.offset c.buffer) ≡ c.offset
    before_size = length-take_of_le c.offset c.buffer (omega arith)

    same_size : length buffer ≡ length c.buffer
    same_size = omega (
      arith,
      before_size,
      length-append before (bytes ++ after),
      length-append bytes after,
      length-drop (c.offset + length bytes) c.buffer,
    )
