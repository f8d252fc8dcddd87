-- ===== src/Quic/Witnesses.antt =====
-- A datagram with one Initial packet, read with primitives that leave every byte as it is, and the
-- theorems at these inputs.
use mathlib.Core.List.Permᴰ
use socktrail.Base.{
  index, be32, be16, be24, slice, slice_from, ◌*◌, ◌^◌, ◌%◌, ◌≡◌, refl, true, [], ◌∷◌, ◌++◌, none,
  some, Bytes, ok, Yields, Ensures, arith, Res, panic, if◌then◌else◌, ltb, ◌==◌, length, Bool-cases,
  inl, inr, Runs, ◌≤◌,
}
use socktrail.Quic.Wire.{read_varint, split_long_packet}
use socktrail.Quic.Crypto.{PartOrder, empty_stream, add_crypto, client_hello}
use socktrail.Quic.Keys.{derive_client_keys, Primitives, packet_number}
use socktrail.Quic.Frames.{frames}
use socktrail.Quic.Tracker.{Tracker, Answer, add, new_tracker}
use socktrail.Quic.Number.{packet_number-near}
use socktrail.Quic.Safety.Wire.{Splits, split_long_packet-Splits}
use socktrail.Quic.Safety.Stream.{IsBounded}
use socktrail.Quic.Safety.Crypto.{add_crypto-IsBounded}
use socktrail.Quic.Safety.Tracker.{Outcome, add-Outcome, new-IsSound}
use socktrail.Quic.Once.{adds, Run, start, more, Reached, Run-Reached}

abbrev zeros16 : Bytes
zeros16 = 0 ∷ 0 ∷ 0 ∷ 0 ∷ 0 ∷ 0 ∷ 0 ∷ 0 ∷ 0 ∷ 0 ∷ 0 ∷ 0 ∷ 0 ∷ 0 ∷ 0 ∷ 0 ∷ []

-- A cipher block of zeros; a shorter sample panics.
abbrev mask_of : Bytes → Res Bytes
mask_of sample = if ltb (length sample) 16 then panic else ok zeros16

pub mask_of_lem :
    (sample : Bytes) → 16 ≤ length sample → Yields (λ mask. length mask ≡ 16) (mask_of sample)
mask_of_lem sample h = elim (Bool-cases (ltb (length sample) 16)) [
  | inl y ↦ absurd (ground (arith, y, h))
  | inr n ↦ rw n refl
]

-- Every nonce of 12 bytes opens; another one panics.
abbrev opened_with : Bytes → Bytes → Res Bytes
opened_with nonce content = if length nonce == 12 then ok content else panic

pub opened_with-Runs :
    (nonce content : Bytes) → length nonce ≡ 12 → Runs (opened_with nonce content)
opened_with-Runs nonce content h = elim (Bool-cases (length nonce == 12)) [
  | inl y ↦ rw y tt
  | inr n ↦ absurd (ground (arith, n, h))
]

abbrev pub plain : Primitives
plain = record {
  Block = Unit {0};
  Aead = Unit {0};
  extract = λ _ _. ok [];
  expand = λ _ _ _. ok [];
  new_cipher = λ _. ok tt;
  new_gcm = λ _. ok tt;
  encrypt = λ _ sample. mask_of sample;
  open_sealed = λ _ nonce content _. opened_with nonce content;
  extract_runs = λ _ _. tt;
  expand_runs = λ _ _ _. tt;
  new_cipher_runs = λ _. tt;
  new_gcm_runs = λ _. tt;
  encrypt_length = λ _ sample h. mask_of_lem sample h;
  open_sealed_runs = λ _ nonce content _ h. opened_with-Runs nonce content h;
}

abbrev pub in_order : PartOrder
in_order = record { arrange = λ ps. ps; arrange_perm = Permᴰ.refl }

abbrev hello : Bytes
hello = 1 ∷ 0 ∷ 0 ∷ 2 ∷ 7 ∷ 9 ∷ []

-- Version 1, no connection IDs and no token; a packet number, a CRYPTO frame and padding.
abbrev datagram : Bytes
datagram = 0xc0 ∷ 0 ∷ 0 ∷ 0 ∷ 1 ∷ 0 ∷ 0 ∷ 0 ∷ 26 ∷ 5 ∷ 6 ∷ 0 ∷ 6 ∷ (hello ++ zeros16)

abbrev behind : Tracker plain × Answer
behind = (
  record {
    version = 1;
    dcid = [];
    keys =
        some
          (record { aead = tt; hp = tt; iv = 0 ∷ 0 ∷ 0 ∷ 0 ∷ 0 ∷ 0 ∷ 0 ∷ 0 ∷ 0 ∷ 0 ∷ 0 ∷ 0 ∷ [] });
    largest_pn = 5;
    has_pn = true;
    stream = empty_stream;
    first = some 7;
    last = 7;
    done = true;
    failure = "";
  },
  record { hello = some hello; authenticated = true; error = none },
)

handed_over : add plain in_order datagram 7 (new_tracker plain) ≡ ok behind
unfolding add split_long_packet index be32 be16 slice read_varint slice_from derive_client_keys
    frames add_crypto client_hello be24
handed_over = refl

split_long_packet-Splits_example : Yields (Splits datagram) (split_long_packet datagram)
split_long_packet-Splits_example = split_long_packet-Splits datagram

-- The packet number of the example in RFC 9000, A.3.
packet_number-near_example : packet_number true 0xa82f30ea (0xa82f9b32 % 2 ^ (2 * 8)) 2 ≡ 0xa82f9b32
packet_number-near_example =
    packet_number-near 0xa82f30ea 0xa82f9b32 2 (omega arith) (omega arith) (omega arith)
      (omega arith, omega arith)

empty-IsBounded : IsBounded empty_stream
empty-IsBounded = record {
  crypto = omega arith;
  count = omega arith;
  pending = refl;
  limit = omega arith;
  parts_end = tt;
}

add_crypto-IsBounded_example : Ensures IsBounded (add_crypto in_order 3 hello empty_stream)
add_crypto-IsBounded_example = add_crypto-IsBounded in_order 3 hello empty_stream empty-IsBounded

add-Outcome_example : Yields (Outcome plain) (add plain in_order datagram 7 (new_tracker plain))
add-Outcome_example = add-Outcome plain in_order datagram 7 (new_tracker plain) (new-IsSound plain)

-- One datagram, and a call of `Tick` behind it.
handing-Run : Run plain in_order (hello ∷ []) behind.0
handing-Run =
    more [] (new_tracker plain) behind.0 (some hello) start
      (adds datagram 7 (new_tracker plain) behind handed_over)

Run-Reached_example : Reached plain in_order (hello ∷ []) behind.0
Run-Reached_example = Run-Reached plain in_order (hello ∷ []) behind.0 handing-Run
