-- ===== src/Quic/Prefix.antt =====
-- internal/quicinitial/initial.go, addCrypto: pieces of one stream, in any order.
use socktrail.Base.{
  ℕ, ◌+◌, ◌-◌, ◌≤◌, ◌<◌, min, max, ◌≡◌, refl, sym, ap, ◌∙◌, ◌⊎◌, inl, inr, true, ◌||◌, String, List,
  [], ◌∷◌, ◌++◌, Option, none, some, Bytes, length, length-take, length-drop, length-append, All,
  take, drop, slice_ok, slice_from_ok, arith, Bool-cases, ltb, leb, ◌==◌, Res, ok, err, panic,
  Yields, equal, subst,
}
use socktrail.Quic.Crypto.{
  Part, CryptoStream, PartOrder, max_crypto_bytes, max_crypto_parts, find_part, put_part,
  check_overlaps, store_part, hold_part, pull_parts, add_rest, add_crypto,
}
use socktrail.Quic.Pieces.{IsPiece, IsPiece-slice, IsPiece-drop, IsPiece-append, equal-IsPiece}
use socktrail.Quic.Pull.{PartOf, Agrees, Holds, Has, Ahead, Settled, pull_parts-Settled}

-- The errors that are limits, and no conflict.
abbrev pub IsLimit : String → Type 0
IsLimit e =
    (e ≡ "QUIC ClientHello size limit")
    ⊎ ((e ≡ "QUIC CRYPTO fragment limit") ⊎ (e ≡ "QUIC CRYPTO buffer limit"))

-- The code returns a value that satisfies `P`, or reports a limit.
abbrev pub Unless {ℓ} : {A : Type ℓ} → (A → Type 0) → Res A → Type 0
Unless P (ok a) = P a
Unless P (err e) = IsLimit e
Unless P panic = ⊥

Yields-Unless {ℓ} :
    {A : Type ℓ} (P Q : A → Type 0) (m : Res A) → Yields P m → ((a : A) → P a → Q a) → Unless Q m
Yields-Unless P Q (ok a) h k = k a h
Yields-Unless P Q (err e) h k = absurd h
Yields-Unless P Q panic h k = absurd h

module _ (whole : Bytes) where
  -- Two slices of pieces at the same place are equal.
  slices_equal :
      (start : ℕ) (a : Bytes) (i j : ℕ) (start' : ℕ) (b : Bytes) (i' j' : ℕ)
      → IsPiece whole start a
      → IsPiece whole start' b
      → i ≤ j
      → j ≤ length a
      → i' ≤ j'
      → j' ≤ length b
      → start + i ≡ start' + i'
      → j - i ≡ j' - i'
      → equal (take (j - i) (drop i a)) (take (j' - i') (drop i' b)) ≡ true
  slices_equal start a i j start' b i' j' p q h k h' k' e e' =
      equal-IsPiece whole (start + i) (take (j - i) (drop i a)) (take (j' - i') (drop i' b))
        (IsPiece-slice whole start a i j (start + i) p h k refl)
        (IsPiece-slice whole start' b i' j' (start + i) q h' k' (sym e))
        (omega (
          arith,
          e',
          length-take (j - i) (drop i a),
          length-take (j' - i') (drop i' b),
          length-drop i a,
          length-drop i' b,
        ))

  check_overlaps_ok :
      (start end : ℕ) (b : Bytes) (ps : List Part)
      → IsPiece whole start b
      → end ≡ start + length b
      → All (PartOf whole) ps
      → check_overlaps start end b ps ≡ ok tt
  unfolding check_overlaps
  check_overlaps_ok start end b [] p e h = refl
  check_overlaps_ok start end b (q ∷ qs) p e (h, hs) =
      let from = max start q.start in
      let to = min end (q.start + length q.content) in
      ground (
        arith,
        check_overlaps_ok start end b qs p e hs,
        slice_ok b (from - start) (to - start),
        slice_ok q.content (from - q.start) (to - q.start),
        slices_equal start b (from - start) (to - start) q.start q.content (from - q.start)
            (to - q.start) p h,
      )

  find_part-IsPiece :
      (start : ℕ) (ps : List Part) (b : Bytes)
      → All (PartOf whole) ps
      → find_part start ps ≡ some b
      → IsPiece whole start b
  unfolding find_part
  find_part-IsPiece start [] b h e = absurd (cc)
  find_part-IsPiece start (p ∷ ps) b (h, hs) e = elim (Bool-cases (p.start == start)) [
    | inl y ↦
        let here : p.start ≡ start = ground (arith, y) in
        let found : p.content ≡ b = ground (arith, y, e) in
        subst (λ n. IsPiece whole n b) here (subst (IsPiece whole p.start) found h)
    | inr n ↦
        let later : find_part start ps ≡ some b = ground (arith, n, e) in
        find_part-IsPiece start ps b hs later
  ]

  put_part-All :
      (P : Part → Type 0) (start : ℕ) (b : Bytes) (ps : List Part)
      → P (record { start = start; content = b })
      → All P ps
      → All P (put_part start b ps)
  unfolding put_part
  put_part-All P start b [] h k = (h, tt)
  put_part-All P start b (p ∷ ps) h (k, ks) = ground (arith, put_part-All P start b ps h ks)

  put_part-Holds :
      (start : ℕ) (b : Bytes) (ps : List Part) (i : ℕ)
      → ((start ≤ i) × (i < start + length b)) ⊎ Holds i ps
      → ((old : Bytes) → find_part start ps ≡ some old → length old ≤ length b)
      → Holds i (put_part start b ps)
  unfolding put_part find_part
  put_part-Holds start b [] i (inl h) k = inl h
  put_part-Holds start b [] i (inr h) k = absurd h
  put_part-Holds start b (p ∷ ps) i h k = ground (arith, k p.content, put_part-Holds start b ps i)

  -- What adding `b` at `start` leaves: nothing is lost, `b` is held, and nothing waits that could be
  -- appended.
  pub record Added (start : ℕ) (b : Bytes) (t r : CryptoStream) : Type 0 where
    pub agrees : Agrees whole r
    pub ahead : All (Ahead (length r.crypto)) r.parts
    pub kept : (i : ℕ) → Has i t → Has i r
    pub held : (i : ℕ) → start ≤ i → i < start + length b → Has i r

  store_part-Added :
      (start : ℕ) (b : Bytes) (t u : CryptoStream)
      → Agrees whole t
      → All (Ahead (length t.crypto)) t.parts
      → IsPiece whole start b
      → length t.crypto < start
      → ((old : Bytes) → find_part start t.parts ≡ some old → length old ≤ length b)
      → u.crypto ≡ t.crypto
      → u.parts ≡ t.parts
      → Unless (Added start b t) (store_part start b u)
  unfolding store_part
  store_part-Added start b t u a h p l shorter same same' =
      let size = u.pending_size + length b in
      elim (Bool-cases (ltb max_crypto_bytes size)) [
        | inl y ↦ rw y (inr (inr refl))
        | inr n ↦
            rw (n, same, same')
              (record {
                agrees = record {
                  prefix = a.prefix;
                  pieces = put_part-All (PartOf whole) start b t.parts p a.pieces;
                };
                ahead = put_part-All (Ahead (length t.crypto)) start b t.parts l h;
                kept = kept;
                held = λ i x y. inr (put_part-Holds start b t.parts i (inl (x, y)) shorter);
              })
      ]
    where
      kept : (i : ℕ) → Has i t → (i < length t.crypto) ⊎ Holds i (put_part start b t.parts)
      kept i (inl w) = inl w
      kept i (inr w) = inr (put_part-Holds start b t.parts i (inr w) shorter)

  find_part-Holds :
      (start : ℕ) (ps : List Part) (b : Bytes) (i : ℕ)
      → find_part start ps ≡ some b
      → start ≤ i
      → i < start + length b
      → Holds i ps
  unfolding find_part
  find_part-Holds start [] b i e h k = absurd (cc)
  find_part-Holds start (p ∷ ps) b i e h k = elim (Bool-cases (p.start == start)) [
    | inl y ↦
        let found : p.content ≡ b = ground (arith, y, e) in
        inl (ground (arith, y), ground (arith, y, ap length found))
    | inr n ↦ inr (find_part-Holds start ps b i (ground (arith, n, e)) h k)
  ]

  hold_part-Added :
      (start : ℕ) (b : Bytes) (found : Option Bytes) (t : CryptoStream)
      → find_part start t.parts ≡ found
      → Agrees whole t
      → All (Ahead (length t.crypto)) t.parts
      → IsPiece whole start b
      → length t.crypto < start
      → Unless (Added start b t) (hold_part start b found t)
  unfolding hold_part
  hold_part-Added start b none t e a h p l =
      elim (Bool-cases (leb max_crypto_parts (length t.parts))) [
        | inl y ↦ rw y (inr (inl refl))
        | inr n ↦
            rw n (store_part-Added start b t t a h p l (λ old e'. absurd (cc (e, e'))) refl refl)
      ]
  hold_part-Added start b (some prior) t e a h p l =
      let q = find_part-IsPiece start t.parts prior a.pieces e in
      let overlap = min (length prior) (length b) in
      let agree =
        slices_equal start prior 0 overlap start b 0 overlap q p (omega arith) (omega arith)
          (omega arith) (omega arith) refl refl in
      rw
        (
          slice_ok prior 0 overlap (omega arith) (omega arith),
          slice_ok b 0 overlap (omega arith) (omega arith),
          agree,
        )
        (elim (Bool-cases (leb (length b) (length prior))) [
          | inl y ↦ rw y (record {
            agrees = a;
            ahead = h;
            kept = λ i w. w;
            held =
                λ i x x'. inr (find_part-Holds start t.parts prior i e x (ground (arith, y, x')));
          })
          | inr n ↦ rw n (
              store_part-Added start b t (record t { pending_size = t.pending_size - length prior })
                a h p l (λ old e'. shorter old e' (ground (arith, n))) refl refl)
        ])
    where
      shorter :
          (old : Bytes)
          → find_part start t.parts ≡ some old
          → length prior ≤ length b
          → length old ≤ length b
      shorter old e' k =
          let both : some prior ≡ some old = sym e ∙ e' in
          let same : prior ≡ old = cc both in omega (arith, ap length same, k)

  module _ (R : PartOrder) where
    add_rest-Added :
        (start end : ℕ) (b : Bytes) (t : CryptoStream)
        → Agrees whole t
        → All (Ahead (length t.crypto)) t.parts
        → IsPiece whole start b
        → length t.crypto ≤ start ⊎ (length b ≡ 0)
        → end ≡ start + length b
        → Unless (Added start b t) (add_rest R start end b t)
    unfolding add_rest
    add_rest-Added start end b t a h p l e = elim (Bool-cases (length b == 0)) [
      | inl y ↦ rw y (record {
        agrees = a;
        ahead = h;
        kept = λ i w. w;
        held = λ i x x'. absurd (ground (arith, y, x, x'));
      })
      | inr n ↦ rw n (elim (Bool-cases (start == length t.crypto)) [
        | inl y' ↦ rw y' (
            Yields-Unless (Settled whole (record t { crypto = t.crypto ++ b })) (Added start b t)
              (pull_parts R (record t { crypto = t.crypto ++ b }))
              (pull_parts-Settled whole R (record t { crypto = t.crypto ++ b })
                (record {
                  prefix = IsPiece-append whole 0 t.crypto b start a.prefix p (ground (arith, y'));
                  pieces = a.pieces;
                }))
              (λ r s. record {
                agrees = s.agrees;
                ahead = s.ahead;
                kept = λ i w. s.kept i (grown i w);
                held = λ i x x'. s.kept i (inl (ground (arith, y', x', length-append t.crypto b)));
              }))
        | inr n' ↦
            rw (n', check_overlaps_ok start end b t.parts p e a.pieces)
              (hold_part-Added start b (find_part start t.parts) t refl a h p
                (ground (arith, n, n', l)))
      ])
    ]
      where
        grown : (i : ℕ) → Has i t → (i < length (t.crypto ++ b)) ⊎ Holds i t.parts
        grown i (inl w) = inl (omega (arith, w, length-append t.crypto b))
        grown i (inr w) = inr w

    pub add_crypto-Added :
        (start : ℕ) (b : Bytes) (t : CryptoStream)
        → Agrees whole t
        → All (Ahead (length t.crypto)) t.parts
        → IsPiece whole start b
        → Unless (Added start b t) (add_crypto R start b t)
    unfolding add_crypto
    add_crypto-Added start b t a h p =
        let end = start + length b in
        let overlap = min end (length t.crypto) - start in
        elim (Bool-cases
          (ltb max_crypto_bytes start || ltb (max_crypto_bytes - start) (length b))) [
            | inl y ↦ rw y (inl refl)
            | inr n ↦ rw n (elim (Bool-cases (ltb start (length t.crypto))) [
              | inl y' ↦
                  let behind : start < length t.crypto = ground (arith, y') in
                  let agree =
                    slices_equal 0 t.crypto start (start + overlap) start b 0 overlap a.prefix p
                      (omega arith) (omega arith) (omega arith) (omega arith) (omega arith)
                      (omega arith) in
                  rw
                    (
                      y',
                      slice_ok t.crypto start (start + overlap) (omega arith)
                          (omega (arith, behind)),
                      slice_ok b 0 overlap (omega arith) (omega arith),
                      agree,
                      slice_from_ok b overlap (omega arith),
                    )
                    (trimmed overlap (omega (arith, behind)) (omega arith) (
                      add_rest-Added (start + overlap) end (drop overlap b) t a h
                        (IsPiece-drop whole start b overlap (start + overlap) p (omega arith) refl)
                        (ground (arith, behind, length-drop overlap b))
                        (omega (arith, length-drop overlap b))))
              | inr n' ↦ rw n' (add_rest-Added start end b t a h p (inl (ground (arith, n'))) refl)
            ])
          ]
      where
        weaken :
            (overlap : ℕ) (m : Res CryptoStream)
            → start + overlap ≤ length t.crypto
            → Unless (Added (start + overlap) (drop overlap b) t) m
            → Unless (Added start b t) m
        weaken overlap (ok r) l k = record {
          agrees = k.agrees;
          ahead = k.ahead;
          kept = k.kept;
          held = λ i x x'. elim (Bool-cases (ltb i (start + overlap))) [
            | inl y ↦ k.kept i (inl (ground (arith, y, l)))
            | inr n ↦ k.held i (ground (arith, n)) (ground (arith, n, x', length-drop overlap b))
          ];
        }
        weaken overlap (err e) l k = k
        weaken overlap panic l k = k

        trimmed :
            (overlap : ℕ)
            → start + overlap ≤ length t.crypto
            → overlap ≤ length b
            → Unless
                (Added (start + overlap) (drop overlap b) t)
                (add_rest R (start + overlap) (start + length b) (drop overlap b) t)
            → Unless
                (Added start b t)
                (add_rest R (start + overlap) (start + length b) (drop overlap b) t)
        trimmed overlap l l' k =
            weaken overlap (add_rest R (start + overlap) (start + length b) (drop overlap b) t) l k
