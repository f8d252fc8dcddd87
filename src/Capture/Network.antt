-- ===== src/Capture/Network.antt =====
-- internal/capture/packet.go: `Decode`, `EthernetFrame`, `DecodeNetwork` and the network headers.
-- The Boolean result of the Go functions is the `Option`.
use socktrail.Base.{
  ℕ, zero, suc, ◌+◌, ◌-◌, ◌*◌, ◌/◌, ◌%◌, ◌^◌, min, Bool, true, false, not, ◌&&◌, ◌||◌, ◌++◌, Bytes,
  length, replicate, ltb, leb, ◌==◌, if◌then◌else◌, Option, none, some, Res, ok, ◌>>=◌, index,
  slice, slice_from, be16, be32, put_be16, bit_and,
}
use socktrail.Capture.Packet.{
  Packet, empty_packet, Addr, ipv4, ipv6, AddrPort, ethernet_header, ether_type_ipv4,
  ether_type_arp, ether_type_ipv6, ether_type_vlan, ether_type_qinq, ether_type_pppoe,
  ether_type_llc, ip_snap_length,
}
use socktrail.Capture.Transport.{decode_transport}

abbrev pub portless : Addr → AddrPort
portless a = record { addr = a; port = 0 }

-- `decodeARP`
unfoldable pub is_ethernet_arp : Bytes → Res Bool
is_ethernet_arp arp = if ltb (length arp) 28 then ok false else do
  hardware ← be16 arp 0
  protocol ← be16 arp 2
  hardware_len ← index arp 4
  protocol_len ← index arp 5
  ok (hardware == 1 && protocol == ether_type_ipv4 && hardware_len == 6 && protocol_len == 4)

unfoldable pub decode_arp : Bytes → Bool → Res (Option Packet)
decode_arp arp outgoing = do
  good ← is_ethernet_arp arp
  if not good then ok none else do
    op ← be16 arp 6
    s ← slice arp 14 18
    d ← slice arp 24 28
    mac ← slice arp 8 14
    ok (
        some (record empty_packet {
          ether_type = ether_type_arp;
          ip_bytes = 28;
          outgoing = outgoing;
          arp_op = op;
          source = portless (ipv4 s);
          destination = portless (ipv4 d);
          hardware_addr = mac;
        }))

-- The packet of an IP header with these addresses, before its transport header is read.
unfoldable pub ip_packet : Bytes → Bool → (Bytes → Addr) → ℕ → ℕ → ℕ → ℕ → Res Packet
ip_packet ip outgoing family proto from width total_len = do
  s ← slice ip from (from + width)
  d ← slice ip (from + width) (from + width + width)
  protocol ← index ip proto
  ok (record empty_packet {
    source = portless (family s);
    destination = portless (family d);
    protocol = protocol;
    ip_bytes = total_len % 2 ^ 32;
    outgoing = outgoing;
    truncated = ltb (length ip) (min total_len ip_snap_length);
  })

unfoldable pub ipv4_fragment : Packet → Bytes → Res Packet
ipv4_fragment p ip = do
  flags ← be16 ip 6
  id ← be16 ip 4
  ok (
      if not (bit_and flags 0x3fff == 0)
      then record p { fragmented = true; fragment_id = id; fragment_offset = bit_and flags 0x1fff }
      else p)

unfoldable pub ipv4_body : Bytes → Bool → ℕ → ℕ → Res Packet
ipv4_body ip outgoing header_len total_len = do
  p ← ip_packet ip outgoing ipv4 9 12 4 total_len
  q ← ipv4_fragment p ip
  if q.fragmented && not (q.fragment_offset == 0) then ok q else do
    segment ← slice ip header_len (min (length ip) total_len)
    decode_transport q segment (total_len - header_len)

-- `decodeIPv4`
unfoldable pub decode_ipv4 : Bytes → Bool → Res (Option Packet)
decode_ipv4 ip outgoing = if ltb (length ip) 20 then ok none else do
  first ← index ip 0
  total_len ← be16 ip 2
  let header_len = bit_and first 0x0f * 4
  if not (first / 16 == 4)
        || ltb header_len 20
        || ltb total_len header_len
        || ltb (length ip) header_len
      then ok none
      else do p ← ipv4_body ip outgoing header_len total_len; ok (some p)

-- Where the walk over the IPv6 extension headers stands: the packet is finished, the walk stops at
-- this header, or it goes on there.
pub data Walk : Type 0 where
  finished : Packet → Walk
  stopped : Packet → ℕ → ℕ → Walk
  onward : Packet → ℕ → ℕ → Walk

-- The step over one header, by its length.
unfoldable pub ipv6_advance : Bytes → ℕ → Packet → ℕ → ℕ → Res Walk
ipv6_advance ip total p offset step =
    if ltb (length ip) (offset + step) || ltb total (offset + step)
    then ok (finished p)
    else do next ← index ip offset; ok (onward p next (offset + step))

unfoldable pub ipv6_fragment : Bytes → ℕ → Packet → ℕ → Res Walk
ipv6_fragment ip total p offset = if ltb (length ip) (offset + 8) then ok (finished p) else do
  id ← be32 ip (offset + 4)
  raw ← be16 ip (offset + 2)
  protocol ← index ip offset
  let q = record p { fragmented = true; fragment_id = id; fragment_offset = raw / 8 }
  if not (raw / 8 == 0)
      then ok (finished (record q { protocol = protocol }))
      else ipv6_advance ip total q offset 8

-- One round of the loop of `decodeIPv6`.
unfoldable pub ipv6_step : Bytes → ℕ → Packet → ℕ → ℕ → Res Walk
ipv6_step ip total p next offset =
    if not (next == 0)
      && not (next == 43)
      && not (next == 44)
      && not (next == 60)
      && not (next == 51)
    then ok (stopped p next offset)
    else if ltb (length ip) (offset + 2)
    then ok (finished p)
    else if next == 44
    then ipv6_fragment ip total p offset
    else do
      units ← index ip (offset + 1)
      ipv6_advance ip total p offset (if next == 51 then (units + 2) * 4 else (units + 1) * 8)

unfoldable pub ipv6_walk : ℕ → Bytes → ℕ → Packet → ℕ → ℕ → Res Walk
ipv6_walk zero ip total p next offset = ok (stopped p next offset)
ipv6_walk (suc rounds) ip total p next offset = do
  w ← ipv6_step ip total p next offset
  elim w [
    | finished q ↦ ok (finished q)
    | stopped q n o ↦ ok (stopped q n o)
    | onward q n o ↦ ipv6_walk rounds ip total q n o
  ]

unfoldable pub ipv6_transport : Bytes → ℕ → Walk → Res Packet
ipv6_transport ip total (finished p) = ok p
ipv6_transport ip total (stopped p next offset) =
    let q = record p { protocol = next } in
    if leb offset (length ip)
    then (do
      segment ← slice ip offset (min (length ip) total)
      decode_transport q segment (total - offset))
    else ok q
ipv6_transport ip total (onward p next offset) = ok p

-- Behind the tests on the header; `total` is the length that it declares.
unfoldable pub ipv6_body : Bytes → Bool → ℕ → Res (Option Packet)
ipv6_body ip outgoing total = do
  p ← ip_packet ip outgoing ipv6 6 8 16 total
  w ← ipv6_walk 8 ip total p p.protocol 40
  q ← ipv6_transport ip total w
  ok (some q)

-- `decodeIPv6`
unfoldable pub decode_ipv6 : Bytes → Bool → Res (Option Packet)
decode_ipv6 ip outgoing = if ltb (length ip) 40 then ok none else do
  first ← index ip 0
  if not (first / 16 == 6)
      then ok none
      else do payload_len ← be16 ip 4; ipv6_body ip outgoing (40 + payload_len)

-- Every other frame is counted by its EtherType.
abbrev pub other_packet : Bytes → ℕ → Bool → Packet
other_packet body ether_type outgoing = record empty_packet {
  ether_type = if ltb ether_type 0x0600 then ether_type_llc else ether_type;
  ip_bytes = length body % 2 ^ 32;
  outgoing = outgoing;
}

-- `DecodeNetwork`
unfoldable pub decode_network : Bytes → ℕ → Bool → Res (Option Packet)
decode_network body ether_type outgoing =
    if ether_type == ether_type_ipv4
    then decode_ipv4 body outgoing
    else if ether_type == ether_type_ipv6
    then decode_ipv6 body outgoing
    else if ether_type == ether_type_arp
    then (do
      p ← decode_arp body outgoing
      ok (elim p [ some q ↦ some q | none ↦ some (other_packet body ether_type outgoing) ]))
    else ok (some (other_packet body ether_type outgoing))

-- The loop over at most `rounds` VLAN tags: `none` for a frame that ends inside a tag, else the
-- EtherType behind the tags and the offset of what follows it.
unfoldable pub skip_vlan : ℕ → Bytes → ℕ → ℕ → Res (Option (ℕ × ℕ))
skip_vlan zero frame ether_type offset = ok (some (ether_type, offset))
skip_vlan (suc rounds) frame ether_type offset =
    let rest = (do inner ← be16 frame (offset + 2); skip_vlan rounds frame inner (offset + 4)) in
    if not (ether_type == ether_type_vlan) && not (ether_type == ether_type_qinq)
    then ok (some (ether_type, offset))
    else if ltb (length frame) (offset + 4)
    then ok none
    else rest

-- A PPPoE session carries PPP: the EtherType and the offset of the IP packet inside.
unfoldable pub skip_pppoe : Bytes → ℕ → ℕ → Res (ℕ × ℕ)
skip_pppoe frame ether_type offset =
    if ether_type == ether_type_pppoe && leb (offset + 8) (length frame)
    then (do
      ppp ← be16 frame (offset + 6)
      ok (
          if ppp == 0x0021
          then (ether_type_ipv4, offset + 8)
          else if ppp == 0x0057
          then (ether_type_ipv6, offset + 8)
          else (ether_type, offset)))
    else ok (ether_type, offset)

unfoldable pub decode_behind : Bytes → Bool → Option (ℕ × ℕ) → Res (Option Packet)
decode_behind frame outgoing none = ok none
decode_behind frame outgoing (some (ether_type, offset)) = do
  at_ip ← skip_pppoe frame ether_type offset
  body ← slice_from frame (at_ip.1)
  decode_network body (at_ip.0) outgoing

-- `Decode`
unfoldable pub decode : Bytes → Bool → Res (Option Packet)
decode frame outgoing = if ltb (length frame) ethernet_header then ok none else do
  ether_type ← be16 frame 12
  tagged ← skip_vlan 2 frame ether_type ethernet_header
  decode_behind frame outgoing tagged

-- `EthernetFrame`
unfoldable pub ethernet_frame : ℕ → Bytes → Bytes
ethernet_frame ether_type packet = replicate 12 0 ++ (put_be16 ether_type ++ packet)
