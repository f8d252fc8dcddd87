-- ===== src/Quic/Safety/Stream.antt =====
-- internal/quicinitial/initial.go: addCrypto and pullParts on any bytes at all, their limits and loops.
use mathlib.Core.List.{Permᴰ}
use socktrail.Base.{
  ℕ, zero, suc, ◌+◌, ◌-◌, ◌≤◌, ◌<◌, ◌≡◌, refl, ◌∙◌, inl, inr, Bool, true, false, List, [], ◌∷◌,
  ◌++◌, Bytes, length, length-append, length-drop, length-perm, All, All-append, Option, none, some,
  min, drop, slice_ok, slice_from_ok, arith, Bool-cases, ltb, leb, ◌==◌, ok, Yields, Yields-bind,
  Yields-weaken, Ensures,
}
use socktrail.Quic.Crypto.{
  Part, CryptoStream, PartOrder, max_crypto_bytes, max_crypto_parts, find_part, put_part,
  store_part, hold_part, pull_pass, pull_loop, pull_parts,
}
use socktrail.Quic.Pull.{All-perm}

-- The bytes of all parts.
abbrev pub total : List Part → ℕ
total [] = 0
total (p ∷ ps) = length p.content + total ps

total-append : (ps qs : List Part) → total (ps ++ qs) ≡ total ps + total qs
total-append [] qs = omega arith
total-append (p ∷ ps) qs = omega (arith, total-append ps qs)

total-perm : {ps qs : List Part} → Permᴰ ps qs → total ps ≡ total qs
total-perm Permᴰ.nil = refl
total-perm (Permᴰ.cons e d) = rw (e, total-perm d) refl
total-perm (Permᴰ.swap {l} e e') = rw (e, e') (omega arith)
total-perm (Permᴰ.trans d d') = total-perm d ∙ total-perm d'

abbrev pub Ends : Part → Type 0
Ends p = p.start + length p.content ≤ max_crypto_bytes

-- The limits, with the parts `todo` still to be visited by a pass.
record Within (todo : List Part) (t : CryptoStream) : Type 0 where
  crypto : length t.crypto ≤ max_crypto_bytes
  count : length todo + length t.parts ≤ max_crypto_parts
  pending : t.pending_size ≡ total todo + total t.parts
  limit : t.pending_size ≤ max_crypto_bytes
  todo_end : All Ends todo
  parts_end : All Ends t.parts

-- The limits of the CRYPTO stream: its bytes and those that wait, and the parts.
pub record IsBounded (t : CryptoStream) : Type 0 where
  pub crypto : length t.crypto ≤ max_crypto_bytes
  pub count : length t.parts ≤ max_crypto_parts
  pub pending : t.pending_size ≡ total t.parts
  pub limit : t.pending_size ≤ max_crypto_bytes
  pub parts_end : All Ends t.parts

-- What a pass leaves.
record Passed (n : ℕ) (progress : Bool) (r : CryptoStream × Bool) : Type 0 where
  bounded : IsBounded r.0
  fewer : length r.0.parts ≤ n
  shrinks : progress ≡ false → r.1 ≡ true → length r.0.parts < n

pull_pass-Passed :
    (todo : List Part) (t : CryptoStream) (progress : Bool)
    → Within todo t
    → Yields (Passed (length todo + length t.parts) progress) (pull_pass todo t progress)
unfolding pull_pass
pull_pass-Passed [] t progress w = record {
  bounded = record {
    crypto = w.crypto;
    count = omega (arith, w.count);
    pending = omega (arith, w.pending);
    limit = w.limit;
    parts_end = w.parts_end;
  };
  fewer = omega arith;
  shrinks = λ e e'. absurd (cc (e, e'));
}
pull_pass-Passed (p ∷ ps) t progress w =
    let used = length t.crypto - p.start in
    elim (Bool-cases (ltb (length t.crypto) p.start)) [
      | inl y ↦ rw y (
          let u : CryptoStream = record t { parts = t.parts ++ (p ∷ []) } in
          let size = length-append t.parts (p ∷ []) in
          let sum = total-append t.parts (p ∷ []) in
          Yields-weaken (Passed (length ps + length u.parts) progress)
            (Passed (suc (length ps) + length t.parts) progress) (pull_pass ps u progress)
            (pull_pass-Passed ps u progress (record {
              crypto = w.crypto;
              count = omega (arith, w.count, size);
              pending = omega (arith, w.pending, sum);
              limit = w.limit;
              todo_end = w.todo_end.1;
              parts_end = All-append Ends t.parts (p ∷ []) w.parts_end (w.todo_end.0, tt);
            }))
            (λ r k. record {
              bounded = k.bounded;
              fewer = omega (arith, k.fewer, size);
              shrinks = λ e e'. omega (arith, k.shrinks e e', size);
            }))
      | inr n ↦ rw n (elim (Bool-cases (ltb used (length p.content))) [
        | inl y' ↦
            let u : CryptoStream = record t {
              crypto = t.crypto ++ drop used p.content;
              pending_size = t.pending_size - length p.content;
            } in
            let grown = length-append t.crypto (drop used p.content) in
            let size = length-drop used p.content in
            rw (y', slice_from_ok p.content used (ground (arith, y')))
              (Yields-weaken (Passed (length ps + length t.parts) true)
                (Passed (suc (length ps) + length t.parts) progress) (pull_pass ps u true)
                (pull_pass-Passed ps u true (record {
                  crypto = ground (arith, w.todo_end.0, grown, size, w.crypto, n);
                  count = omega (arith, w.count);
                  pending = omega (arith, w.pending);
                  limit = omega (arith, w.limit);
                  todo_end = w.todo_end.1;
                  parts_end = w.parts_end;
                }))
                (λ r k. record {
                  bounded = k.bounded;
                  fewer = omega (arith, k.fewer);
                  shrinks = λ e e'. omega (arith, k.fewer);
                }))
        | inr n' ↦
            let u : CryptoStream = record t { pending_size = t.pending_size - length p.content } in
            rw n' (
              Yields-weaken (Passed (length ps + length t.parts) progress)
                (Passed (suc (length ps) + length t.parts) progress) (pull_pass ps u progress)
                (pull_pass-Passed ps u progress (record {
                  crypto = w.crypto;
                  count = omega (arith, w.count);
                  pending = omega (arith, w.pending);
                  limit = omega (arith, w.limit);
                  todo_end = w.todo_end.1;
                  parts_end = w.parts_end;
                }))
                (λ r k. record {
                  bounded = k.bounded;
                  fewer = omega (arith, k.fewer);
                  shrinks = λ e e'. omega (arith, k.fewer);
                }))
      ])
    ]

module _ (R : PartOrder) where
  open R use {arrange, arrange_perm}

  pull_next :
      (m n : ℕ) (v : CryptoStream) (progress : Bool)
      → Passed (m + 0) false (v, progress)
      → m < suc n
      → (length v.parts < n → Yields IsBounded (pull_loop R n v))
      → Yields IsBounded (elim progress [ true ↦ pull_loop R n v | false ↦ ok v ])
  pull_next m n v false k l go = k.bounded
  pull_next m n v true k l go = go (omega (arith, k.shrinks refl refl, l))

  pull_loop-IsBounded :
      (n : ℕ) (t : CryptoStream)
      → length t.parts < n
      → IsBounded t
      → Yields IsBounded (pull_loop R n t)
  unfolding pull_loop
  pull_loop-IsBounded zero t h b = absurd (omega arith)
  pull_loop-IsBounded (suc n) t h b =
      let visited = arrange t.parts in
      let size = length-perm (arrange_perm t.parts) in
      Yields-bind (Passed (length visited + 0) false) IsBounded
        (pull_pass visited (record t { parts = [] }) false) _
        (pull_pass-Passed visited (record t { parts = [] }) false
          (record {
            crypto = b.crypto;
            count = omega (arith, b.count, size);
            pending = omega (arith, b.pending, total-perm (arrange_perm t.parts));
            limit = b.limit;
            todo_end = All-perm Ends (arrange_perm t.parts) b.parts_end;
            parts_end = tt;
          }))
        (λ (v, progress) k.
          pull_next (length visited) n v progress k (omega (arith, h, size))
            (λ l. pull_loop-IsBounded n v l k.bounded))

  pub pull_parts-IsBounded : (t : CryptoStream) → IsBounded t → Yields IsBounded (pull_parts R t)
  unfolding pull_parts
  pull_parts-IsBounded t b = pull_loop-IsBounded (suc (length t.parts)) t (omega arith) b

-- What `put_part` does to the sizes.
put_part-none :
    (start : ℕ) (b : Bytes) (ps : List Part)
    → find_part start ps ≡ none
    → (total (put_part start b ps) ≡ total ps + length b)
      × (length (put_part start b ps) ≡ suc (length ps))
unfolding find_part put_part
put_part-none start b [] e = (omega arith, omega arith)
put_part-none start b (p ∷ ps) e = elim (Bool-cases (p.start == start)) [
  | inl y ↦ absurd (let bad : some p.content ≡ none = ground (arith, e, y) in cc bad)
  | inr n ↦
      let rest = put_part-none start b ps (ground (arith, e, n)) in
      rw n (omega (arith, rest.0), omega (arith, rest.1))
]

put_part-some :
    (start : ℕ) (b prior : Bytes) (ps : List Part)
    → find_part start ps ≡ some prior
    → (total (put_part start b ps) + length prior ≡ total ps + length b)
      × (length (put_part start b ps) ≡ length ps)
unfolding find_part put_part
put_part-some start b prior [] e = absurd (cc e)
put_part-some start b prior (p ∷ ps) e = elim (Bool-cases (p.start == start)) [
  | inl y ↦
      let same : length p.content ≡ length prior = ground (arith, e, y) in
      rw y (omega (arith, same), omega arith)
  | inr n ↦
      let rest = put_part-some start b prior ps (ground (arith, e, n)) in
      rw n (omega (arith, rest.0), omega (arith, rest.1))
]

put_part-Ends :
    (start : ℕ) (b : Bytes) (ps : List Part)
    → start + length b ≤ max_crypto_bytes
    → All Ends ps
    → All Ends (put_part start b ps)
unfolding put_part
put_part-Ends start b [] h k = (h, tt)
put_part-Ends start b (p ∷ ps) h (k, ks) = elim (Bool-cases (p.start == start)) [
  | inl y ↦ rw y (h, ks)
  | inr n ↦ rw n (k, put_part-Ends start b ps h ks)
]

find_part-le :
    (start : ℕ) (prior : Bytes) (ps : List Part)
    → find_part start ps ≡ some prior
    → length prior ≤ total ps
unfolding find_part
find_part-le start prior [] e = absurd (cc e)
find_part-le start prior (p ∷ ps) e = ground (arith, e, find_part-le start prior ps)

-- The limits where a part that is about to be replaced, of `freed` bytes, is not counted.
store_part-IsBounded :
    (start : ℕ) (b : Bytes) (t : CryptoStream)
    → length t.crypto ≤ max_crypto_bytes
    → All Ends t.parts
    → start + length b ≤ max_crypto_bytes
    → length (put_part start b t.parts) ≤ max_crypto_parts
    → t.pending_size + length b ≡ total (put_part start b t.parts)
    → Ensures IsBounded (store_part start b t)
unfolding store_part
store_part-IsBounded start b t crypto ends h count pending =
    elim (Bool-cases (ltb max_crypto_bytes (t.pending_size + length b))) [
      | inl y ↦ rw y tt
      | inr n ↦ rw n (record {
        crypto = crypto;
        count = count;
        pending = pending;
        limit = ground (arith, n);
        parts_end = put_part-Ends start b t.parts h ends;
      })
    ]

pub hold_part-IsBounded :
    (start : ℕ) (b : Bytes) (found : Option Bytes) (t : CryptoStream)
    → IsBounded t
    → find_part start t.parts ≡ found
    → start + length b ≤ max_crypto_bytes
    → Ensures IsBounded (hold_part start b found t)
unfolding hold_part
hold_part-IsBounded start b none t k e h =
    let sizes = put_part-none start b t.parts e in
    elim (Bool-cases (leb max_crypto_parts (length t.parts))) [
      | inl y ↦ rw y tt
      | inr n ↦ rw n (
          store_part-IsBounded start b t k.crypto k.parts_end h (ground (arith, n, sizes.1))
            (omega (arith, sizes.0, k.pending)))
    ]
hold_part-IsBounded start b (some prior) t k e h =
    let shared = min (length prior) (length b) in
    let sizes = put_part-some start b prior t.parts e in
    let u : CryptoStream = record t { pending_size = t.pending_size - length prior } in
    let held : length prior ≤ total t.parts = find_part-le start prior t.parts e in
    let stored =
      store_part-IsBounded start b u k.crypto k.parts_end h (omega (arith, sizes.1, k.count))
        (omega (arith, sizes.0, k.pending, held)) in
    ground (arith, slice_ok prior 0 shared, slice_ok b 0 shared, k, stored)
