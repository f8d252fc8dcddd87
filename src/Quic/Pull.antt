-- ===== src/Quic/Pull.antt =====
-- internal/quicinitial/initial.go, pullParts: what a pass and the loop leave.
use mathlib.Core.List.{Permᴰ}
use mathlib.Core.List.Permᴰ
use socktrail.Base.{
  ℕ, zero, suc, ◌+◌, ◌-◌, ◌≤◌, ◌<◌, ◌≡◌, refl, ap, ◌⊎◌, inl, inr, Bool, true, false, List, [], ◌∷◌,
  ◌++◌, Bytes, length, length-append, length-drop, length-perm, All, All-append, drop,
  slice_from_ok, arith, Bool-cases, ltb, Res, ok, Yields, Yields-bind, Yields-weaken,
}
use socktrail.Quic.Crypto.{Part, CryptoStream, PartOrder, pull_pass, pull_loop, pull_parts}
use socktrail.Quic.Pieces.{IsPiece, IsPiece-drop, IsPiece-append}

abbrev pub PartOf : Bytes → Part → Type 0
PartOf whole p = IsPiece whole p.start p.content

-- Every byte that is held comes from the stream `whole`: in order, or in a part.
pub record Agrees (whole : Bytes) (t : CryptoStream) : Type 0 where
  pub prefix : IsPiece whole 0 t.crypto
  pub pieces : All (PartOf whole) t.parts

-- The parts hold the byte at position `i`.
abbrev pub Holds : ℕ → List Part → Type 0
Holds i [] = ⊥
Holds i (p ∷ ps) = ((p.start ≤ i) × (i < p.start + length p.content)) ⊎ Holds i ps

-- The byte at position `i` is held.
abbrev pub Has : ℕ → CryptoStream → Type 0
Has i t = (i < length t.crypto) ⊎ Holds i t.parts

abbrev pub Ahead : ℕ → Part → Type 0
Ahead n p = n < p.start

pub Holds-append : (i : ℕ) (ps qs : List Part) → Holds i ps ⊎ Holds i qs → Holds i (ps ++ qs)
Holds-append i [] qs (inl h) = absurd h
Holds-append i [] qs (inr h) = h
Holds-append i (p ∷ ps) qs (inl (inl h)) = inl h
Holds-append i (p ∷ ps) qs (inl (inr h)) = inr (Holds-append i ps qs (inl h))
Holds-append i (p ∷ ps) qs (inr h) = inr (Holds-append i ps qs (inr h))

pub Holds-perm : (i : ℕ) {ps qs : List Part} → Permᴰ ps qs → Holds i ps → Holds i qs
Holds-perm i Permᴰ.nil h = h
Holds-perm i (Permᴰ.cons e d) (inl h) = inl (rw (← e) h)
Holds-perm i (Permᴰ.cons e d) (inr h) = inr (Holds-perm i d h)
Holds-perm i (Permᴰ.swap e e') (inl h) = inr (inl (rw (← e) h))
Holds-perm i (Permᴰ.swap e e') (inr (inl h)) = inl (rw (← e') h)
Holds-perm i (Permᴰ.swap e e') (inr (inr h)) = inr (inr h)
Holds-perm i (Permᴰ.trans d d') h = Holds-perm i d' (Holds-perm i d h)

pub All-perm : (P : Part → Type 0) {ps qs : List Part} → Permᴰ ps qs → All P qs → All P ps
All-perm P Permᴰ.nil h = h
All-perm P (Permᴰ.cons e d) (h, hs) = (rw e h, All-perm P d hs)
All-perm P (Permᴰ.swap e e') (h, (h', hs)) = (rw e h', (rw e' h, hs))
All-perm P (Permᴰ.trans d d') h = All-perm P d (All-perm P d' h)

module _ (whole : Bytes) where
  -- What a pass over `todo` leaves.
  record Pulled (todo : List Part) (t : CryptoStream) (progress : Bool) (r : CryptoStream × Bool)
      : Type 0 where
    agrees : Agrees whole r.0
    kept : (i : ℕ) → (i < length t.crypto) ⊎ (Holds i todo ⊎ Holds i t.parts) → Has i r.0
    fewer : length r.0.parts ≤ length todo + length t.parts
    shrinks : progress ≡ false → r.1 ≡ true → length r.0.parts < length todo + length t.parts
    sticky : progress ≡ true → r.1 ≡ true
    settled :
        r.1 ≡ false
        → All (Ahead (length t.crypto)) t.parts
        → All (Ahead (length r.0.crypto)) r.0.parts

  Pulls : List Part → CryptoStream → Bool → Res (CryptoStream × Bool) → Type 0
  Pulls todo t progress m = Yields (Pulled todo t progress) m

  pull_keep :
      (p : Part) (todo : List Part) (t : CryptoStream) (progress : Bool)
      → length t.crypto < p.start
      → Pulls todo
          (record t { parts = t.parts ++ (p ∷ []) })
          progress
          (pull_pass todo (record t { parts = t.parts ++ (p ∷ []) }) progress)
      → Pulls
          (p ∷ todo)
          t
          progress
          (pull_pass todo (record t { parts = t.parts ++ (p ∷ []) }) progress)
  unfolding Pulls
  pull_keep p todo t progress ahead h =
      Yields-weaken (Pulled todo (record t { parts = t.parts ++ (p ∷ []) }) progress)
        (Pulled (p ∷ todo) t progress)
        (pull_pass todo (record t { parts = t.parts ++ (p ∷ []) }) progress) h
        (λ r k. record {
          agrees = k.agrees;
          kept = λ i w. k.kept i (moved i w);
          fewer = omega (arith, k.fewer, length-append t.parts (p ∷ []));
          shrinks = λ e e'. omega (arith, k.shrinks e e', length-append t.parts (p ∷ []));
          sticky = k.sticky;
          settled = λ e w.
              k.settled e (All-append (Ahead (length t.crypto)) t.parts (p ∷ []) w (ahead, tt));
        })
    where
      moved :
          (i : ℕ)
          → (i < length t.crypto) ⊎ (Holds i (p ∷ todo) ⊎ Holds i t.parts)
          → (i < length t.crypto) ⊎ (Holds i todo ⊎ Holds i (t.parts ++ (p ∷ [])))
      moved i (inl w) = inl w
      moved i (inr (inl (inl w))) = inr (inr (Holds-append i t.parts (p ∷ []) (inr (inl w))))
      moved i (inr (inl (inr w))) = inr (inl w)
      moved i (inr (inr w)) = inr (inr (Holds-append i t.parts (p ∷ []) (inl w)))

  -- The part is taken away; what it holds stands in the new `crypto`.
  pull_take :
      (p : Part) (todo : List Part) (t u : CryptoStream) (progress progress' : Bool)
      → u.parts ≡ t.parts
      → length t.crypto ≤ length u.crypto
      → p.start + length p.content ≤ length u.crypto
      → (progress' ≡ false → length u.crypto ≡ length t.crypto)
      → (progress ≡ true → progress' ≡ true)
      → Pulls todo u progress' (pull_pass todo u progress')
      → Pulls (p ∷ todo) t progress (pull_pass todo u progress')
  unfolding Pulls
  pull_take p todo t u progress progress' same grows covers still stays h =
      Yields-weaken (Pulled todo u progress') (Pulled (p ∷ todo) t progress)
        (pull_pass todo u progress') h
        (λ r k. record {
          agrees = k.agrees;
          kept = λ i w. k.kept i (moved i w);
          fewer = omega (arith, k.fewer, ap length same);
          shrinks = λ e e'. omega (arith, k.fewer, ap length same);
          sticky = λ e. k.sticky (stays e);
          settled = λ e w. settle r.1 r.0 e k.sticky (k.settled e) w;
        })
    where
      moved :
          (i : ℕ)
          → (i < length t.crypto) ⊎ (Holds i (p ∷ todo) ⊎ Holds i t.parts)
          → (i < length u.crypto) ⊎ (Holds i todo ⊎ Holds i u.parts)
      moved i (inl w) = inl (omega (arith, w, grows))
      moved i (inr (inl (inl w))) = inl (omega (arith, w, covers))
      moved i (inr (inl (inr w))) = inr (inl w)
      moved i (inr (inr w)) = inr (inr (rw same w))

      settle :
          (last : Bool) (v : CryptoStream)
          → last ≡ false
          → (progress' ≡ true → last ≡ true)
          → (All (Ahead (length u.crypto)) u.parts → All (Ahead (length v.crypto)) v.parts)
          → All (Ahead (length t.crypto)) t.parts
          → All (Ahead (length v.crypto)) v.parts
      settle last v e sticks go w = elim (Bool-cases progress') [
        | inl y ↦ absurd (cc (sticks y, e))
        | inr n ↦ go (rw (same, still n) w)
      ]

  pull_pass-Pulls :
      (todo : List Part) (t : CryptoStream) (progress : Bool)
      → Agrees whole t
      → All (PartOf whole) todo
      → Pulls todo t progress (pull_pass todo t progress)
  unfolding pull_pass Pulls
  pull_pass-Pulls [] t progress a k = record {
    agrees = a;
    kept = λ i w. elim w [ inl x ↦ inl x | inr (inl x) ↦ absurd x | inr (inr x) ↦ inr x ];
    fewer = omega arith;
    shrinks = λ e e'. absurd (cc (e, e'));
    sticky = λ e. e;
    settled = λ e w. w;
  }
  pull_pass-Pulls (p ∷ ps) t progress a (k, ks) =
      let used = length t.crypto - p.start in
      elim (Bool-cases (ltb (length t.crypto) p.start)) [
        | inl y ↦ rw y (
            pull_keep p ps t progress (ground (arith, y)) (
              pull_pass-Pulls ps (record t { parts = t.parts ++ (p ∷ []) }) progress
                (record {
                  prefix = a.prefix;
                  pieces = All-append (PartOf whole) t.parts (p ∷ []) a.pieces (k, tt);
                })
                ks))
        | inr n ↦ rw n (elim (Bool-cases (ltb used (length p.content))) [
          | inl y' ↦
              let within : used ≤ length p.content = ground (arith, y') in
              let reached : p.start + used ≡ length t.crypto = ground (arith, n) in
              let u : CryptoStream = record t {
                crypto = t.crypto ++ drop used p.content;
                pending_size = t.pending_size - length p.content;
              } in
              let grown = length-append t.crypto (drop used p.content) in
              let size = length-drop used p.content in
              rw (y', slice_from_ok p.content used within)
                (pull_take p ps t u progress true refl (omega (arith, grown))
                  (omega (arith, grown, size)) (λ e. absurd (cc e)) (λ e. refl)
                  (pull_pass-Pulls ps u true
                    (record {
                      prefix =
                          IsPiece-append whole 0 t.crypto (drop used p.content) (length t.crypto)
                            a.prefix
                            (IsPiece-drop whole p.start p.content used (length t.crypto) k within
                              reached)
                            (omega arith);
                      pieces = a.pieces;
                    })
                    ks))
          | inr n' ↦
              let u : CryptoStream = record t {
                pending_size = t.pending_size - length p.content;
              } in
              rw n' (
                pull_take p ps t u progress progress refl (omega arith) (ground (arith, n, n'))
                  (λ e. refl) (λ e. e)
                  (pull_pass-Pulls ps u progress (record { prefix = a.prefix; pieces = a.pieces })
                    ks))
        ])
      ]

  -- `pullParts` gives an answer, and leaves nothing that could be appended; no byte is lost.
  pub record Settled (t r : CryptoStream) : Type 0 where
    pub agrees : Agrees whole r
    pub kept : (i : ℕ) → Has i t → Has i r
    pub ahead : All (Ahead (length r.crypto)) r.parts
    pub no_more : length r.parts ≤ length t.parts

  module _ (R : PartOrder) where
    open R use {arrange, arrange_perm}

    pull_next :
        (n : ℕ) (t : CryptoStream) (v : CryptoStream) (progress : Bool)
        → length t.parts < suc n
        → Pulled (arrange t.parts) (record t { parts = [] }) false (v, progress)
        → (length v.parts < n → Yields (Settled v) (pull_loop R n v))
        → Yields (Settled t) (elim progress [ true ↦ pull_loop R n v | false ↦ ok v ])
    pull_next n t v false h k go = record {
      agrees = k.agrees;
      kept = kept_here;
      ahead = k.settled refl tt;
      no_more = omega (arith, k.fewer, length-perm (arrange_perm t.parts));
    }
      where
        kept_here : (i : ℕ) → Has i t → Has i v
        kept_here i (inl w) = k.kept i (inl w)
        kept_here i (inr w) =
            k.kept i (inr (inl (Holds-perm i (Permᴰ.symm (arrange_perm t.parts)) w)))
    pull_next n t v true h k go =
        let sizes = length-perm (arrange_perm t.parts) in
        let less : length v.parts < length t.parts = omega (arith, k.shrinks refl refl, sizes) in
        Yields-weaken (Settled v) (Settled t) (pull_loop R n v) (go (omega (arith, less))) (λ r s.
          record {
            agrees = s.agrees;
            kept = λ i w. s.kept i (kept_here i w);
            ahead = s.ahead;
            no_more = omega (arith, s.no_more, less);
          })
      where
        kept_here : (i : ℕ) → Has i t → Has i v
        kept_here i (inl w) = k.kept i (inl w)
        kept_here i (inr w) =
            k.kept i (inr (inl (Holds-perm i (Permᴰ.symm (arrange_perm t.parts)) w)))

    pull_loop-Settled :
        (n : ℕ) (t : CryptoStream)
        → length t.parts < n
        → Agrees whole t
        → Yields (Settled t) (pull_loop R n t)
    unfolding pull_loop Pulls
    pull_loop-Settled zero t h a = absurd (omega arith)
    pull_loop-Settled (suc n) t h a =
        Yields-bind (Pulled (arrange t.parts) (record t { parts = [] }) false) (Settled t)
          (pull_pass (arrange t.parts) (record t { parts = [] }) false) _
          (pull_pass-Pulls (arrange t.parts) (record t { parts = [] }) false
            (record { prefix = a.prefix; pieces = tt })
            (All-perm (PartOf whole) (arrange_perm t.parts) a.pieces))
          (λ (v, progress) k. pull_next n t v progress h k (λ l. pull_loop-Settled n v l k.agrees))

    -- Where all bytes that are held come from one stream, pullParts ends, within as many passes as
    -- there are parts and one more, whatever order the map is visited in: no byte is lost, and no part
    -- is left that could be appended.
    pub pull_parts-Settled :
        (t : CryptoStream) → Agrees whole t → Yields (Settled t) (pull_parts R t)
    unfolding pull_parts
    pull_parts-Settled t a = pull_loop-Settled (suc (length t.parts)) t (omega arith) a
