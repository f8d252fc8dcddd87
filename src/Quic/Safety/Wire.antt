-- ===== src/Quic/Safety/Wire.antt =====
-- internal/quicinitial/initial.go: readVarint and splitLongPacket on any bytes.
use native.Mathlib.Nat.{one-le-pow}
use socktrail.Base.{
  ℕ, zero, suc, ◌+◌, ◌-◌, ◌*◌, ◌/◌, ◌%◌, ◌≤◌, ◌<◌, ◌≡◌, bit_and, Bool, true, false, Option, none,
  some, Bytes, length, ltb, arith, inl, inr, Bool-cases, Yields, Yields-bind, at, be32_at, index_ok,
  be32_ok, slice_ok, take, drop,
}
use socktrail.Quic.Wire.{
  LongPacket, varint_loop, varint_length, read_varint, split_length, split_token, split_scid,
  split_long_packet,
}

-- The offset moves on, and stays in the bytes.
abbrev pub Moves : Bytes → ℕ → Option (ℕ × ℕ) → Type 0
Moves b offset none = Unit {0}
Moves b offset (some r) = (offset < r.1) × (r.1 ≤ length b)

varint_loop-Yields :
    (n : ℕ) (b : Bytes) (i value : ℕ)
    → i + n ≤ length b
    → Yields (λ _. Unit {0}) (varint_loop n b i value)
unfolding varint_loop
varint_loop-Yields zero b i value h = tt
varint_loop-Yields (suc n) b i value h =
    rw (index_ok b i (omega arith))
      (varint_loop-Yields n b (i + 1) (value * 256 + at b i) (omega arith))

varint_length-pos : (b : ℕ) → 0 < varint_length b
unfolding varint_length
varint_length-pos b = one-le-pow (b / 64) 2 (omega arith)

pub read_varint-Moves : (b : Bytes) (offset : ℕ) → Yields (Moves b offset) (read_varint b offset)
unfolding read_varint
read_varint-Moves b offset = ground (
  arith,
  index_ok b offset,
  varint_length-pos (at b offset),
  varint_loop-Yields (varint_length (at b offset) - 1) b (offset + 1) (bit_and (at b offset) 0x3f),
)

-- A packet that was split off: it is the front of the datagram, and takes some of it.
pub record IsFront (b : Bytes) (packet : LongPacket) (consumed : ℕ) : Type 0 where
  pub taken : 0 < consumed
  pub inside : consumed ≤ length b
  pub raw : packet.raw ≡ take consumed b
  pub known : 0 < packet.version
  pub number : packet.pn_offset + 17 ≤ consumed

abbrev pub Splits : Bytes → Option (LongPacket × ℕ) → Type 0
Splits b none = Unit {0}
Splits b (some s) = IsFront b s.0 s.1

split_length-Splits :
    (b : Bytes) (version : ℕ) (dcid : Bytes) (initial : Bool) (offset : ℕ) (found : Option (ℕ × ℕ))
    → Moves b offset found
    → 0 < version
    → Yields (Splits b) (split_length b version dcid initial found)
unfolding split_length
split_length-Splits b version dcid initial offset none h v = tt
split_length-Splits b version dcid initial offset (some (size, next)) h v =
    ground (arith, slice_ok b 0 (next + size))

split_token-Splits :
    (b : Bytes) (version : ℕ) (dcid : Bytes) (offset : ℕ) (found : Option (ℕ × ℕ))
    → Moves b offset found
    → 0 < version
    → Yields (Splits b) (split_token b version dcid found)
unfolding split_token
split_token-Splits b version dcid offset none h v = tt
split_token-Splits b version dcid offset (some (size, next)) h v =
    elim (Bool-cases (ltb (length b - next) size)) [
      | inl y ↦ rw y tt
      | inr n ↦ rw n (
          Yields-bind (Moves b (next + size)) (Splits b) (read_varint b (next + size)) _
            (read_varint-Moves b (next + size))
            (λ r m. split_length-Splits b version dcid true (next + size) r m v))
    ]

split_scid-Splits :
    (b : Bytes) (version packet_type : ℕ) (dcid : Bytes) (offset : ℕ)
    → offset < length b
    → 0 < version
    → Yields (Splits b) (split_scid b version packet_type dcid offset)
unfolding split_scid
split_scid-Splits b version packet_type dcid offset h v =
    let next = offset + 1 + at b offset in
    let token =
      Yields-bind (Moves b next) (Splits b) (read_varint b next) (λ r. split_token b version dcid r)
        (read_varint-Moves b next) (λ r m. split_token-Splits b version dcid next r m v) in
    let found =
      Yields-bind (Moves b next) (Splits b) (read_varint b next)
        (λ r. split_length b version dcid false r) (read_varint-Moves b next)
        (λ r m. split_length-Splits b version dcid false next r m v) in
    ground (arith, index_ok b offset, token, found)

-- Splitting a packet off a datagram never panics; a packet that it finds is the front of the datagram,
-- takes at least one byte of it and no more than there are, has a version other than 0, and has
-- at least 17 bytes from its packet number on.
pub split_long_packet-Splits : (b : Bytes) → Yields (Splits b) (split_long_packet b)
unfolding split_long_packet
split_long_packet-Splits b =
    let dcid = take (6 + at b 5 - 6) (drop 6 b) in
    ground (
      arith,
      index_ok b 0,
      be32_ok b 1,
      index_ok b 5,
      slice_ok b 6 (6 + at b 5),
      split_scid-Splits b (be32_at b 1) (at b 0 / 16 % 4) dcid (6 + at b 5),
    )
