-- ===== src/Quic/Complete.antt =====
-- internal/quicinitial/initial.go, addCrypto: all the pieces of a stream, in any order.
use socktrail.Base.{
  ℕ, suc, ◌+◌, ◌≤◌, ◌<◌, ◌≡◌, refl, ap, ◌∙◌, ◌⊎◌, inl, inr, List, [], ◌∷◌, Bytes, length, get_or,
  All, arith, Bool-cases, ltb, Res, ok, err, panic, ◌>>=◌,
}
use socktrail.Quic.Crypto.{Part, CryptoStream, PartOrder, empty_stream, add_crypto}
use socktrail.Quic.Pieces.{IsPiece}
use socktrail.Quic.Pull.{PartOf, Agrees, Holds, Has, Ahead}
use socktrail.Quic.Prefix.{Unless, Added, add_crypto-Added}

-- One call of `addCrypto` after another, up to the first error.
unfoldable pub add_all : PartOrder → List Part → CryptoStream → Res CryptoStream
add_all R [] t = ok t
add_all R (p ∷ ps) t = do t' ← add_crypto R p.start p.content t; add_all R ps t'

-- What is known behind some calls.
record Gathered (whole : Bytes) (done : ℕ → Type 0) (t : CryptoStream) : Type 0 where
  agrees : Agrees whole t
  ahead : All (Ahead (length t.crypto)) t.parts
  gathered : (i : ℕ) → done i → Has i t

Unless-bind :
    (P Q : CryptoStream → Type 0) (m : Res CryptoStream) (f : CryptoStream → Res CryptoStream)
    → Unless P m
    → ((t : CryptoStream) → P t → Unless Q (f t))
    → Unless Q (m >>= f)
Unless-bind P Q (ok t) f h k = k t h
Unless-bind P Q (err e) f h k = h
Unless-bind P Q panic f h k = h

Unless-weaken :
    (P Q : CryptoStream → Type 0) (m : Res CryptoStream)
    → Unless P m
    → ((t : CryptoStream) → P t → Q t)
    → Unless Q m
Unless-weaken P Q (ok t) h k = k t h
Unless-weaken P Q (err e) h k = h
Unless-weaken P Q panic h k = h

module _ (whole : Bytes) (R : PartOrder) where
  add_all-Gathered :
      (ps : List Part) (done : ℕ → Type 0) (t : CryptoStream)
      → All (PartOf whole) ps
      → Gathered whole done t
      → Unless (Gathered whole (λ i. done i ⊎ Holds i ps)) (add_all R ps t)
  unfolding add_all
  add_all-Gathered [] done t h g = record {
    agrees = g.agrees;
    ahead = g.ahead;
    gathered = λ i w. elim w [ inl d ↦ g.gathered i d | inr x ↦ absurd x ];
  }
  add_all-Gathered (p ∷ ps) done t (h, hs) g =
      let now : ℕ → Type 0 = λ i. done i ⊎ ((p.start ≤ i) × (i < p.start + length p.content)) in
      Unless-bind (Added whole p.start p.content t)
        (Gathered whole (λ i. done i ⊎ Holds i (p ∷ ps))) (add_crypto R p.start p.content t)
        (add_all R ps) (add_crypto-Added whole R p.start p.content t g.agrees g.ahead h)
        (λ u a.
          Unless-weaken (Gathered whole (λ i. now i ⊎ Holds i ps))
            (Gathered whole (λ i. done i ⊎ Holds i (p ∷ ps))) (add_all R ps u)
            (add_all-Gathered ps now u hs (record {
              agrees = a.agrees;
              ahead = a.ahead;
              gathered =
                  λ i w. elim w [ inl d ↦ a.kept i (g.gathered i d) | inr x ↦ a.held i x.0 x.1 ];
            }))
            (λ r k. record {
              agrees = k.agrees;
              ahead = k.ahead;
              gathered = λ i w. k.gathered i (elim w [
                | inl d ↦ inl (inl d)
                | inr (inl x) ↦ inl (inr x)
                | inr (inr y) ↦ inr y
              ]);
            }))

  no_gap : (n i : ℕ) (ps : List Part) → All (Ahead n) ps → Holds i ps → n < i
  no_gap n i [] h w = absurd w
  no_gap n i (p ∷ ps) (h, hs) (inl w) = omega (arith, h, w)
  no_gap n i (p ∷ ps) (h, hs) (inr w) = no_gap n i ps hs w

  same_bytes :
      (a b : Bytes)
      → length a ≡ length b
      → ((i : ℕ) → i < length a → get_or a i 0 ≡ get_or b i 0)
      → a ≡ b
  same_bytes [] [] h k = refl
  same_bytes [] (b ∷ bs) h k = absurd (omega arith)
  same_bytes (a ∷ l) [] h k = absurd (omega arith)
  same_bytes (a ∷ l) (b ∷ bs) h k =
      let head : a ≡ b = k 0 (omega arith) in
      let tail = same_bytes l bs (omega arith) (λ i e. k (suc i) (omega (arith, e))) in
      rw (head, tail) refl

  -- What there is in order is a prefix of the stream, and all of it once every byte has come.
  pub record IsPrefix (ps : List Part) (t : CryptoStream) : Type 0 where
    pub prefix : IsPiece whole 0 t.crypto
    pub complete : ((i : ℕ) → i < length whole → Holds i ps) → t.crypto ≡ whole

  -- Pieces of one stream, added in any order, repeated and overlapping, and with the map of parts
  -- visited in any order: nothing panics and no conflict is reported. Unless a limit is, what is there
  -- in order is a prefix of the stream, and the whole of it once every byte has come in some piece.
  pub add_all-IsPrefix :
      (ps : List Part) → All (PartOf whole) ps → Unless (IsPrefix ps) (add_all R ps empty_stream)
  add_all-IsPrefix ps h =
      Unless-weaken (Gathered whole (λ i. ⊥ ⊎ Holds i ps)) (IsPrefix ps) (add_all R ps empty_stream)
        (add_all-Gathered ps (λ i. ⊥) empty_stream h
          (record {
            agrees = record {
              prefix = record { inside = omega arith; same = λ i l. absurd (omega (arith, l)) };
              pieces = tt;
            };
            ahead = tt;
            gathered = λ i w. absurd w;
          }))
        (λ t g. record { prefix = g.agrees.prefix; complete = λ all. whole_of t g all })
    where
      stuck :
          (t : CryptoStream) → Gathered whole (λ i. ⊥ ⊎ Holds i ps) t → Has (length t.crypto) t → ⊥
      stuck t g (inl w) = absurd (omega (arith, w))
      stuck t g (inr w) =
          absurd (omega (arith, no_gap (length t.crypto) (length t.crypto) t.parts g.ahead w))

      reached :
          (t : CryptoStream)
          → Gathered whole (λ i. ⊥ ⊎ Holds i ps) t
          → ((i : ℕ) → i < length whole → Holds i ps)
          → (n : ℕ) → n ≡ length t.crypto
          → length t.crypto ≡ length whole
      reached t g all n e =
          let q = g.agrees.prefix in
          elim (Bool-cases (ltb (length t.crypto) (length whole))) [
            | inl y ↦ absurd (
                stuck t g
                  (g.gathered (length t.crypto) (inr (all (length t.crypto) (ground (arith, y))))))
            | inr m ↦ ground (arith, m, q.inside)
          ]

      whole_of :
          (t : CryptoStream)
          → Gathered whole (λ i. ⊥ ⊎ Holds i ps) t
          → ((i : ℕ) → i < length whole → Holds i ps)
          → t.crypto ≡ whole
      whole_of t g all =
          let q = g.agrees.prefix in
          same_bytes t.crypto whole (reached t g all (length t.crypto) refl)
            (λ i l. q.same i l ∙ ap (λ n. get_or whole n 0) (omega arith))
