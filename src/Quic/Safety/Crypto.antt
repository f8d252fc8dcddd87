-- ===== src/Quic/Safety/Crypto.antt =====
-- internal/quicinitial/initial.go, addCrypto and clientHello on any bytes at all.
use socktrail.Base.{
  ℕ, ◌+◌, ◌-◌, ◌≤◌, ◌<◌, ◌≡◌, refl, ◌∙◌, List, [], ◌∷◌, ◌++◌, Bytes, length, length-append,
  length-drop, length-take, Option, none, some, min, max, take, drop, slice_ok, slice_from_ok,
  arith, Ensures, Ensures-bind, Yields-Ensures, Runs, at, index_ok, be24_at, be24_ok,
}
use socktrail.Quic.Crypto.{
  Part, CryptoStream, PartOrder, max_crypto_bytes, find_part, check_overlaps, hold_part, pull_parts,
  add_rest, add_crypto, client_hello,
}
use socktrail.Quic.Pieces.{get_or-take}
use socktrail.Quic.Safety.Stream.{IsBounded, pull_parts-IsBounded, hold_part-IsBounded}

check_overlaps-Runs :
    (start end : ℕ) (b : Bytes) (ps : List Part)
    → end ≡ start + length b
    → Runs (check_overlaps start end b ps)
unfolding check_overlaps
check_overlaps-Runs start end b [] e = tt
check_overlaps-Runs start end b (p ∷ ps) e =
    let rest = check_overlaps-Runs start end b ps e in
    let from = max start p.start in
    let to = min end (p.start + length p.content) in
    ground (
      arith,
      rest,
      slice_ok b (from - start) (to - start),
      slice_ok p.content (from - p.start) (to - p.start),
    )

module _ (R : PartOrder) where
  add_rest-IsBounded :
      (start end : ℕ) (b : Bytes) (t : CryptoStream)
      → end ≡ start + length b
      → end ≤ max_crypto_bytes
      → IsBounded t
      → Ensures IsBounded (add_rest R start end b t)
  unfolding add_rest
  add_rest-IsBounded start end b t e h k =
      let u : CryptoStream = record t { crypto = t.crypto ++ b } in
      let pulled : start ≡ length t.crypto → Ensures IsBounded (pull_parts R u) = λ at_end.
        Yields-Ensures IsBounded (pull_parts R u) (
          pull_parts-IsBounded R u (record {
            crypto = omega (arith, length-append t.crypto b, e, h, at_end);
            count = k.count;
            pending = k.pending;
            limit = k.limit;
            parts_end = k.parts_end;
          })) in
      let held =
        Ensures-bind (λ _. Unit {0}) IsBounded (check_overlaps start end b t.parts)
          (λ _. hold_part start b (find_part start t.parts) t)
          (check_overlaps-Runs start end b t.parts e)
          (λ _ _.
            hold_part-IsBounded start b (find_part start t.parts) t k refl (omega (arith, e, h))) in
      ground (arith, k, pulled, held)

  -- A CRYPTO frame of any bytes at any offset, added to a stream within its limits: the code does not
  -- panic, the loop of pullParts ends, and a stream that it leaves is within its limits, with the
  -- bytes that wait counted exactly.
  pub add_crypto-IsBounded :
      (start : ℕ) (b : Bytes) (t : CryptoStream)
      → IsBounded t
      → Ensures IsBounded (add_crypto R start b t)
  unfolding add_crypto
  add_crypto-IsBounded start b t k =
      let end = start + length b in
      let shared = min end (length t.crypto) - start in
      ground (
        arith,
        k,
        add_rest-IsBounded start end b t refl,
        add_rest-IsBounded (start + shared) end (drop shared b) t,
        length-drop shared b,
        slice_ok t.crypto start (start + shared),
        slice_ok b 0 shared,
        slice_from_ok b shared,
      )

-- A whole ClientHello message: its type, and the length of the rest.
pub record IsHello (message : Bytes) : Type 0 where
  pub kind : at message 0 ≡ 1
  pub size : length message ≡ be24_at message 1 + 4
  pub limit : length message ≤ max_crypto_bytes

abbrev pub Complete : Option Bytes → Type 0
Complete none = Unit {0}
Complete (some message) = IsHello message

taken-IsHello :
    (b : Bytes) (n : ℕ)
    → n ≡ be24_at b 1 + 4
    → at b 0 ≡ 1
    → n ≤ length b
    → n ≤ max_crypto_bytes
    → IsHello (take n b)
taken-IsHello b n size e h k =
    let same : (i : ℕ) → i < n → at (take n b) i ≡ at b i = λ i l. get_or-take n b i l in
    record {
      kind = same 0 (omega (arith, size)) ∙ e;
      size = omega (
        arith,
        size,
        length-take n b,
        h,
        same 1 (omega (arith, size)),
        same 2 (omega (arith, size)),
        same 3 (omega (arith, size)),
      );
      limit = omega (arith, length-take n b, k);
    }

-- Looking for the ClientHello never panics; what is found is a whole message of that type, of at most
-- 65540 bytes.
pub client_hello-Complete : (t : CryptoStream) → Ensures Complete (client_hello t)
unfolding client_hello
client_hello-Complete t = ground (
  arith,
  index_ok t.crypto 0,
  be24_ok t.crypto 1,
  slice_ok t.crypto 0 (be24_at t.crypto 1 + 4),
  taken-IsHello t.crypto (be24_at t.crypto 1 + 4 - 0),
)
