-- ===== src/Quic/Pieces.antt =====
-- Pieces of one stream of bytes, by the position that they start at.
use socktrail.Base.{
  ℕ, zero, suc, ◌+◌, ◌-◌, ◌≤◌, ◌<◌, ◌≡◌, refl, sym, ap, ◌∙◌, true, [], ◌∷◌, ◌++◌, Bytes, length,
  get_or, take, drop, length-append, length-take, length-drop, get_or-append_left, arith, equal,
}

pub get_or-take : (n : ℕ) (b : Bytes) (i : ℕ) → i < n → get_or (take n b) i 0 ≡ get_or b i 0
get_or-take zero b i h = absurd (omega arith)
get_or-take (suc n) [] i h = refl
get_or-take (suc n) (x ∷ xs) zero h = refl
get_or-take (suc n) (x ∷ xs) (suc i) h = get_or-take n xs i (omega arith)

get_or-drop : (k : ℕ) (b : Bytes) (i j : ℕ) → k + i ≡ j → get_or (drop k b) i 0 ≡ get_or b j 0
get_or-drop zero b i j e = ap (λ n. get_or b n 0) (omega arith)
get_or-drop (suc k) [] i j e = refl
get_or-drop (suc k) (x ∷ xs) i zero e = absurd (omega arith)
get_or-drop (suc k) (x ∷ xs) i (suc j) e = get_or-drop k xs i j (omega arith)

get_or-append_right :
    (xs ys : Bytes) (i j : ℕ) → length xs + j ≡ i → get_or (xs ++ ys) i 0 ≡ get_or ys j 0
get_or-append_right [] ys i j e = ap (λ n. get_or ys n 0) (omega arith)
get_or-append_right (x ∷ xs) ys zero j e = absurd (omega arith)
get_or-append_right (x ∷ xs) ys (suc i) j e = get_or-append_right xs ys i j (omega arith)

-- `b` stands in `whole` from `start` on.
pub record IsPiece (whole : Bytes) (start : ℕ) (b : Bytes) : Type 0 where
  pub inside : start + length b ≤ length whole
  pub same : (i : ℕ) → i < length b → get_or b i 0 ≡ get_or whole (start + i) 0

pub IsPiece-slice :
    (whole : Bytes) (start : ℕ) (b : Bytes) (i j at : ℕ)
    → IsPiece whole start b
    → i ≤ j
    → j ≤ length b
    → start + i ≡ at
    → IsPiece whole at (take (j - i) (drop i b))
IsPiece-slice whole start b i j at p h k e =
    let size = length-take (j - i) (drop i b) in
    record {
      inside = omega (arith, p.inside, size, length-drop i b);
      same = λ n l.
          get_or-take (j - i) (drop i b) n (omega (arith, l, size, length-drop i b))
          ∙ get_or-drop i b n (i + n) refl
          ∙ p.same (i + n) (omega (arith, l, size, length-drop i b))
          ∙ ap (λ m. get_or whole m 0) (omega (arith, e));
    }

pub IsPiece-drop :
    (whole : Bytes) (start : ℕ) (b : Bytes) (i at : ℕ)
    → IsPiece whole start b
    → i ≤ length b
    → start + i ≡ at
    → IsPiece whole at (drop i b)
IsPiece-drop whole start b i at p h e = record {
  inside = omega (arith, p.inside, length-drop i b);
  same = λ n l.
      get_or-drop i b n (i + n) refl
      ∙ p.same (i + n) (omega (arith, l, length-drop i b))
      ∙ ap (λ m. get_or whole m 0) (omega (arith, e));
}

pub IsPiece-append :
    (whole : Bytes) (start : ℕ) (a b : Bytes) (at : ℕ)
    → IsPiece whole start a
    → IsPiece whole at b
    → start + length a ≡ at
    → IsPiece whole start (a ++ b)
IsPiece-append whole start a b at p q e = record {
  inside = omega (arith, q.inside, length-append a b);
  same = same;
}
  where
    late :
        (i : ℕ)
        → length a ≤ i
        → i < length (a ++ b)
        → get_or (a ++ b) i 0 ≡ get_or whole (start + i) 0
    late i h l =
        get_or-append_right a b i (i - length a) (omega (arith, h))
        ∙ q.same (i - length a) (omega (arith, h, l, length-append a b))
        ∙ ap (λ m. get_or whole m 0) (omega (arith, h, e))

    same : (i : ℕ) → i < length (a ++ b) → get_or (a ++ b) i 0 ≡ get_or whole (start + i) 0
    same i l = ground (arith, late i, get_or-append_left a b i 0, p.same i)

equal_lem :
    (a b : Bytes)
    → length a ≡ length b
    → ((i : ℕ) → i < length a → get_or a i 0 ≡ get_or b i 0)
    → equal a b ≡ true
unfolding equal
equal_lem [] [] h k = refl
equal_lem [] (b ∷ bs) h k = absurd (omega arith)
equal_lem (a ∷ l) [] h k = absurd (omega arith)
equal_lem (a ∷ l) (b ∷ bs) h k =
    let head : a ≡ b = k 0 (omega arith) in
    let tail = equal_lem l bs (omega arith) (λ i e. k (suc i) (omega (arith, e))) in
    ground (arith, head, tail)

-- Pieces from the same position agree.
pub equal-IsPiece :
    (whole : Bytes) (start : ℕ) (a b : Bytes)
    → IsPiece whole start a
    → IsPiece whole start b
    → length a ≡ length b
    → equal a b ≡ true
equal-IsPiece whole start a b p q h =
    equal_lem a b h (λ i l. p.same i l ∙ sym (q.same i (omega (arith, l, h))))
