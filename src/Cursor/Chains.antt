-- ===== src/Cursor/Chains.antt =====
-- Laws of sequences of calls on a cursor.
use dmn_cpp.Base.{
  ◌+◌, ◌≤◌, ◌<◌, ◌^◌, ◌≡◌, ◌∙◌, ap, refl, sym, List, [], ◌∷◌, ◌++◌, Bytes, length, take, drop,
  length-take, take-append-drop, arith,
}
use dmn_cpp.Cursor.Transfer.{flatten, write_all_over}
use dmn_cpp.Cursor.{Outcome, done, threw, fault, ◌>>=◌, Cursor, make, write, write_all}

module _ {ℓ κ} {A : Type ℓ} {B : Type κ} where
  pub >>=-cong :
      (call : Outcome A) {f g : A → Outcome B} → ((a : A) → f a ≡ g a) → (call >>= f) ≡ (call >>= g)
  >>=-cong (done a) same = same a
  >>=-cong (threw e) same = refl
  >>=-cong fault same = refl

  pub >>=-assoc {μ} :
      {C : Type μ} (call : Outcome A) (f : A → Outcome B) (g : B → Outcome C)
      → ((call >>= f) >>= g) ≡ (call >>= λ a. f a >>= g)
  >>=-assoc (done a) f g = refl
  >>=-assoc (threw e) f g = refl
  >>=-assoc fault f g = refl

  pub >>=-done :
      (call : Outcome A) (next : A → Outcome B) {end : B}
      → (call >>= next) ≡ done end
      → (a : A) × (call ≡ done a) × (next a ≡ done end)
  >>=-done (done a) next finished = (a, refl, finished)
  >>=-done (threw e) next finished = cc
  >>=-done fault next finished = cc

pub write_all-append :
    (xs ys : List Bytes) (c : Cursor)
    → write_all (xs ++ ys) c ≡ (write_all xs c >>= λ next. write_all ys next)
unfolding write_all
write_all-append [] ys c = refl
write_all-append (x ∷ xs) ys c =
    >>=-cong (write x c) (λ next. write_all-append xs ys next)
    ∙ sym (>>=-assoc (write x c) (λ next. write_all xs next) (λ after. write_all ys after))

pub write_all-cons {ℓ} :
    {A : Type ℓ} (b : Bytes) (bs : List Bytes) (c : Cursor) (next : Cursor → Outcome A)
    → (write_all (b ∷ bs) c >>= next) ≡ (write b c >>= λ after. write_all bs after >>= next)
unfolding write_all
write_all-cons b bs c next = >>=-assoc (write b c) (λ after. write_all bs after) next

pub write_all-append_then {ℓ} :
    {A : Type ℓ} (xs ys : List Bytes) (c : Cursor) (next : Cursor → Outcome A)
    → (write_all (xs ++ ys) c >>= next) ≡ (write_all xs c >>= λ after. write_all ys after >>= next)
write_all-append_then xs ys c next =
    ap (λ call. call >>= next) (write_all-append xs ys c)
    ∙ >>=-assoc (write_all xs c) (λ after. write_all ys after) next

-- Pieces written from the start of a memory with room for them; what stands behind them stays.
pub write_all_front :
    (pieces : List Bytes) (fresh : Bytes)
    → length (flatten pieces) ≤ length fresh
    → length fresh < 2 ^ 32
    → write_all pieces (make fresh)
      ≡ done (record {
        buffer = flatten pieces ++ drop (length (flatten pieces)) fresh;
        offset = length (flatten pieces);
      })
unfolding make
write_all_front pieces fresh room small =
    let n = length (flatten pieces) in
    let whole = take-append-drop n fresh in
    let first : length (flatten pieces) ≡ length (take n fresh) =
      omega (arith, length-take n fresh, room) in
    let fits : length (take n fresh ++ drop n fresh) < 2 ^ 32 = rw whole small in
    let placed = write_all_over pieces [] (take n fresh) (drop n fresh) first fits in
    let start : 0 + length (flatten pieces) ≡ length (flatten pieces) = omega arith in
    (rw whole at placed)
    ∙ ap (λ k. done (record { buffer = flatten pieces ++ drop n fresh; offset = k })) start
