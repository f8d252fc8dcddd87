-- ===== src/Capture/Quoted.antt =====
-- internal/capture/packet.go: `decodeQuoted` and `decodeICMPDetail`. The Go functions write through
-- `*p`; here they return the packet that they leave behind.
use socktrail.Base.{
  ℕ, ◌+◌, ◌*◌, ◌/◌, Bool, true, false, ◌&&◌, ◌||◌, Bytes, length, ltb, leb, ◌==◌, if◌then◌else◌,
  Res, ok, ◌>>=◌, index, slice, slice_from, be16, be32, bit_and,
}
use socktrail.Capture.Packet.{Packet, Addr, ipv4, ipv6}

-- `len(ip) >= least && ip[0]>>4 == version`
unfoldable pub has_version : Bytes → ℕ → ℕ → Res Bool
has_version ip least version =
    if leb least (length ip) then (do b ← index ip 0; ok (b / 16 == version)) else ok false

-- The ports at the start of the quoted transport bytes.
unfoldable pub quoted_ports : Packet → Bytes → Res Packet
quoted_ports p transport =
    if (p.quoted_protocol == 6 || p.quoted_protocol == 17) && leb 4 (length transport)
    then (do
      s ← be16 transport 0
      d ← be16 transport 2
      ok (record p {
        quoted_source = record { addr = p.quoted_source.addr; port = s };
        quoted_destination = record { addr = p.quoted_destination.addr; port = d };
      }))
    else ok p

-- The addresses, then the ports behind a header of `header_len` bytes.
unfoldable pub quoted_addresses : Packet → Bytes → (Bytes → Addr) → ℕ → ℕ → ℕ → ℕ → Res Packet
unfolding quoted_ports
quoted_addresses p inner family proto from width header_len = do
  protocol ← index inner proto
  s ← slice inner from (from + width)
  d ← slice inner (from + width) (from + width + width)
  transport ← slice_from inner header_len
  quoted_ports
      (record p {
        quoted_protocol = protocol;
        quoted_source = record { addr = family s; port = 0 };
        quoted_destination = record { addr = family d; port = 0 };
      })
      transport

unfoldable pub decode_quoted_v4 : Packet → Bytes → Res Packet
decode_quoted_v4 p inner = do
  first ← index inner 0
  let header_len = bit_and first 0x0f * 4
  if ltb header_len 20 || ltb (length inner) header_len
      then ok p
      else quoted_addresses p inner ipv4 9 12 4 header_len

-- `decodeQuoted`
unfoldable pub decode_quoted : Packet → Bytes → Bool → Res Packet
decode_quoted p inner false = do
  good ← has_version inner 20 4
  if good then decode_quoted_v4 p inner else ok p
decode_quoted p inner true = do
  good ← has_version inner 40 6
  if good then quoted_addresses p inner ipv6 6 8 16 40 else ok p

-- The cases of `decodeICMPDetail` for ICMP, and for ICMPv6.
unfoldable pub icmp_v4_detail : Packet → Bytes → Res Packet
icmp_v4_detail p body =
    if p.icmp_type == 3 || p.icmp_type == 4 || p.icmp_type == 11 || p.icmp_type == 12
    then (do
      value ← be16 body 6
      inner ← slice_from body 8
      decode_quoted
          (if p.icmp_type == 3 && p.icmp_code == 4 then record p { icmp_value = value } else p)
          inner false)
    else if p.icmp_type == 5
    then (do
      target ← slice body 4 8
      inner ← slice_from body 8
      decode_quoted (record p { icmp_target = ipv4 target }) inner false)
    else ok p

unfoldable pub icmp_v6_detail : Packet → Bytes → Res Packet
icmp_v6_detail p body =
    if leb 1 p.icmp_type && leb p.icmp_type 4
    then (do
      value ← be32 body 4
      inner ← slice_from body 8
      decode_quoted (if p.icmp_type == 2 then record p { icmp_value = value } else p) inner true)
    else if (p.icmp_type == 135 || p.icmp_type == 136 || p.icmp_type == 137) && leb 24 (length body)
    then (do target ← slice body 8 24; ok (record p { icmp_target = ipv6 target }))
    else ok p

-- `decodeICMPDetail`
unfoldable pub decode_icmp_detail : Packet → Bytes → Res Packet
decode_icmp_detail p body =
    if ltb (length body) 8
    then ok p
    else if p.protocol == 58
    then icmp_v6_detail p body
    else icmp_v4_detail p body
