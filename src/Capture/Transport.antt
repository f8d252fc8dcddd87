-- ===== src/Capture/Transport.antt =====
-- internal/capture/packet.go: `decodeTransport`, a function for each protocol of its switch.
use socktrail.Base.{
  ℕ, ◌+◌, ◌-◌, ◌*◌, ◌/◌, min, Bool, true, false, not, ◌&&◌, ◌||◌, Bytes, length, ltb, leb, ◌==◌,
  if◌then◌else◌, Res, ok, ◌>>=◌, index, slice, be16, be32, bit_and,
}
use socktrail.Capture.Packet.{Packet, AddrPort, max_tcp_payload}
use socktrail.Capture.Quoted.{decode_icmp_detail}

-- `b&mask != 0`
abbrev pub has_bit : ℕ → ℕ → Bool
has_bit b mask = not (bit_and b mask == 0)

abbrev pub with_port : AddrPort → ℕ → AddrPort
with_port a n = record { addr = a.addr; port = n }

-- The payload behind a TCP header of `header_len` bytes.
unfoldable pub tcp_payload : Packet → Bytes → ℕ → ℕ → Res Packet
tcp_payload p segment wire_length header_len = do
  let payload_len = if leb 20 header_len then wire_length - header_len else p.payload_len
  payload ←
      if leb 20 header_len && leb header_len (length segment)
      then slice segment header_len (min (length segment) (header_len + max_tcp_payload))
      else ok p.payload
  ok (record p {
    payload = payload;
    payload_len = payload_len;
    payload_truncated = ltb (length payload) payload_len;
  })

unfoldable pub decode_tcp : Packet → Bytes → ℕ → Res Packet
decode_tcp p segment wire_length = do
  seq ← be32 segment 4
  acked ← be32 segment 8
  flags ← index segment 13
  offset ← index segment 12
  tcp_payload
      (record p {
        tcp_seq = seq;
        tcp_ack = acked;
        syn = has_bit flags 0x02;
        ack = has_bit flags 0x10;
        fin = has_bit flags 0x01;
        rst = has_bit flags 0x04;
      })
      segment wire_length (offset / 16 * 4)

-- The most of a datagram that is kept: a QUIC long header, then a DNS port, then anything else.
unfoldable pub is_quic_long : Bytes → Res Bool
is_quic_long segment =
    if leb 15 (length segment)
    then (do
      first ← index segment 8
      version ← be32 segment 9
      ok (bit_and first 0xc0 == 0xc0 && not (version == 0)))
    else ok false

unfoldable pub udp_limit : Packet → Bytes → Res ℕ
udp_limit p segment = do
  quic ← is_quic_long segment
  ok (
      if quic
      then 16 * 1024
      else if p.source.port == 53 || p.destination.port == 53
      then 4096
      else 1024)

-- The payload of a datagram of `udp_length` bytes, up to `limit` of it.
unfoldable pub udp_slice : Packet → Bytes → ℕ → ℕ → Res Packet
udp_slice p segment udp_length limit = do
  payload ← slice segment 8 (min (min (length segment) udp_length) (8 + limit))
  ok (record p {
    payload = payload;
    payload_truncated = ltb limit (udp_length - 8) || ltb (length segment) udp_length;
  })

unfoldable pub decode_udp : Packet → Bytes → Res Packet
decode_udp p segment = do
  udp_length ← be16 segment 4
  if ltb udp_length 8
      then ok p
      else do limit ← udp_limit p segment; udp_slice p segment udp_length limit

-- TCP, UDP, SCTP and UDP-Lite all start with the two ports.
unfoldable pub decode_ports : Packet → Bytes → ℕ → Res Packet
decode_ports p segment wire_length = if ltb (length segment) 4 then ok p else do
  s ← be16 segment 0
  d ← be16 segment 2
  let q = record p {
    source = with_port p.source s;
    destination = with_port p.destination d;
    has_ports = true;
  }
  if p.protocol == 6 && leb 20 (length segment)
      then decode_tcp q segment wire_length
      else if p.protocol == 17 && leb 8 (length segment)
      then decode_udp q segment
      else ok q

unfoldable pub icmp_echo : Packet → Bytes → Res Packet
icmp_echo p body =
    if leb 8 (length body)
      && (p.protocol == 1 && (p.icmp_type == 0 || p.icmp_type == 8)
          || p.protocol == 58 && (p.icmp_type == 128 || p.icmp_type == 129))
    then (do
      id ← be16 body 4
      seq ← be16 body 6
      ok (record p { icmp_id = id; icmp_seq = seq; icmp_has_echo = true }))
    else ok p

unfoldable pub decode_icmp : Packet → Bytes → Res Packet
decode_icmp p body =
    if leb 2 (length body)
    then (do
      kind ← index body 0
      code ← index body 1
      q ← icmp_echo (record p { icmp_type = kind; icmp_code = code }) body
      decode_icmp_detail q body)
    else ok p

-- `decodeTransport`
unfoldable pub decode_transport : Packet → Bytes → ℕ → Res Packet
decode_transport p segment wire_length =
    if p.protocol == 6 || p.protocol == 17 || p.protocol == 132 || p.protocol == 136
    then decode_ports p segment wire_length
    else if p.protocol == 1 || p.protocol == 58
    then decode_icmp p segment
    else ok p
