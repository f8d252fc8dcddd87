-- ===== src/Quic/Wire.antt =====
-- internal/quicinitial/initial.go, readVarint and splitLongPacket.
use socktrail.Base.{
  ℕ, zero, suc, ◌+◌, ◌-◌, ◌*◌, ◌/◌, ◌%◌, ◌^◌, bit_and, Bool, true, false, not, ◌&&◌, ◌||◌, Option,
  none, some, Bytes, length, ltb, leb, ◌==◌, if◌then◌else◌, Res, ok, ◌>>=◌, index, slice, be32,
}

abbrev pub version1 : ℕ
version1 = 1

abbrev pub version2 : ℕ
version2 = 0x6b3343cf

-- The loop of `readVarint` over the bytes behind the first.
unfoldable pub varint_loop : ℕ → Bytes → ℕ → ℕ → Res ℕ
varint_loop zero b i value = ok value
varint_loop (suc rest) b i value = do x ← index b i; varint_loop rest b (i + 1) (value * 256 + x)

-- `1 << (b >> 6)` for a byte.
unfoldable pub varint_length : ℕ → ℕ
varint_length b = 2 ^ (b / 64)

-- `readVarint`: the value and the offset that it leaves; `none` where the Boolean result is false.
unfoldable pub read_varint : Bytes → ℕ → Res (Option (ℕ × ℕ))
unfolding varint_loop varint_length
read_varint b offset = if leb (length b) offset then ok none else do
  first ← index b offset
  if ltb (length b - offset) (varint_length first) then ok none else do
    value ← varint_loop (varint_length first - 1) b (offset + 1) (bit_and first 0x3f)
    ok (some (value, offset + varint_length first))

pub record LongPacket : Type 0 where
  pub raw : Bytes
  pub version : ℕ
  pub dcid : Bytes
  pub pn_offset : ℕ
  pub initial : Bool

-- From the packet length on.
unfoldable pub split_length :
    Bytes → ℕ → Bytes → Bool → Option (ℕ × ℕ) → Res (Option (LongPacket × ℕ))
split_length b version dcid initial none = ok none
split_length b version dcid initial (some (packet_length, offset)) =
    if ltb packet_length 17 || ltb (length b - offset) packet_length then ok none else do
      raw ← slice b 0 (offset + packet_length)
      ok (
          some (
            record {
              raw = raw;
              version = version;
              dcid = dcid;
              pn_offset = offset;
              initial = initial;
            },
            offset + packet_length,
          ))

-- Behind the token of an Initial packet.
unfoldable pub split_token : Bytes → ℕ → Bytes → Option (ℕ × ℕ) → Res (Option (LongPacket × ℕ))
unfolding split_length
split_token b version dcid none = ok none
split_token b version dcid (some (token_length, offset)) =
    if ltb (length b - offset) token_length
    then ok none
    else do found ← read_varint b (offset + token_length); split_length b version dcid true found

-- From the source connection ID on.
unfoldable pub split_scid : Bytes → ℕ → ℕ → Bytes → ℕ → Res (Option (LongPacket × ℕ))
unfolding split_token
split_scid b version packet_type dcid offset = do
  scid_length ← index b offset
  let initial_type = if version == version2 then 1 else 0
  let retry_type = if version == version2 then 0 else 3
  if ltb 20 scid_length || ltb (length b - (offset + 1)) scid_length || packet_type == retry_type
      then ok none
      else if packet_type == initial_type
      then (do token ← read_varint b (offset + 1 + scid_length); split_token b version dcid token)
      else do
        found ← read_varint b (offset + 1 + scid_length)
        split_length b version dcid false found

-- `splitLongPacket`: the packet and the count of bytes that it takes.
unfoldable pub split_long_packet : Bytes → Res (Option (LongPacket × ℕ))
unfolding split_scid
split_long_packet b = if ltb (length b) 7 then ok none else do
  first ← index b 0
  if not (bit_and first 0xc0 == 0xc0) then ok none else do
    version ← be32 b 1
    if not (version == version1) && not (version == version2) then ok none else do
      dcid_length ← index b 5
      if ltb 20 dcid_length || ltb (length b - 6) (dcid_length + 1) then ok none else do
        dcid ← slice b 6 (6 + dcid_length)
        split_scid b version (first / 16 % 4) dcid (6 + dcid_length)
