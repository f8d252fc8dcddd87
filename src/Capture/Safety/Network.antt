-- ===== src/Capture/Safety/Network.antt =====
-- internal/capture/packet.go, Decode and DecodeNetwork: the bounds of network headers and payloads.
use socktrail.Base.{
  ℕ, zero, suc, ◌+◌, ◌-◌, ◌*◌, ◌/◌, ◌≤◌, ◌<◌, Bool, min, ◌≡◌, refl, sym, ◌∙◌, true, inl, inr, [],
  ◌++◌, append_assoc, append-nil, ◌>>=◌, slice, Bytes, length, take, drop, take-append-drop,
  Bool-cases, tests, arith, IsSegment, Option, none, some, Res, ok, Ensures, Ensures-bind,
  Ensures-weaken, index_ok, slice_ok, slice_from_ok, be16_ok, be32_ok, ltb, at, be16_at, be32_at,
  bit_and,
}
use socktrail.Capture.Packet.{Packet, Addr, ipv4, ipv6}
use socktrail.Capture.Transport.{decode_transport}
use socktrail.Capture.Network.{
  is_ethernet_arp, decode_arp, ip_packet, ipv4_fragment, ipv4_body, decode_ipv4, Walk, finished,
  stopped, onward, ipv6_advance, ipv6_fragment, ipv6_step, ipv6_walk, ipv6_transport, ipv6_body,
  decode_ipv6, decode_network, skip_vlan, skip_pppoe, decode_behind, decode,
}
use socktrail.Capture.Safety.Transport.{
  Kept, Keeps, Kept-nil, take-drop-IsSegment, decode_transport-Keeps,
}

abbrev pub KeepsAny : Bytes → Option Packet → Type 0
KeepsAny whole none = Unit {0}
KeepsAny whole (some p) = Keeps whole p

IsSegment-trans : (a b c : Bytes) → IsSegment a b → IsSegment b c → IsSegment a c
IsSegment-trans a b c (f, g, e) (f', g', e') = (f' ++ f, g ++ g', e' ∙ rw e (simp append_assoc))

Kept-within : (b c part : Bytes) → IsSegment b c → Kept b part → Kept c part
Kept-within b c part inside k = record {
  piece = IsSegment-trans part b c k.piece inside;
  bound = k.bound;
}

drop-IsSegment : (i : ℕ) (c : Bytes) → IsSegment (drop i c) c
drop-IsSegment i c = (take i c, [], sym (rw append-nil (take-append-drop i c)))

abbrev Fresh : Packet → Type 0
Fresh p = p.payload ≡ []

ip_packet-Fresh :
    (ip : Bytes) (outgoing : Bool) (family : Bytes → Addr) (proto from width total_len : ℕ)
    → proto < length ip
    → from + width + width ≤ length ip
    → Ensures Fresh (ip_packet ip outgoing family proto from width total_len)
unfolding ip_packet
ip_packet-Fresh ip outgoing family proto from width total_len h k =
    rw
      (
        slice_ok ip from (from + width) (omega arith) (omega arith),
        slice_ok ip (from + width) (from + width + width) (omega arith) k,
        index_ok ip proto h,
      )
      refl

ipv4_fragment-Fresh :
    (p : Packet) (ip : Bytes) → 20 ≤ length ip → Fresh p → Ensures Fresh (ipv4_fragment p ip)
unfolding ipv4_fragment
ipv4_fragment-Fresh p ip h e = ground (arith, be16_ok ip 6, be16_ok ip 4)

-- The transport bytes of `ip`, from a header to the end of the packet.
transport-Keeps :
    (ip : Bytes) (p : Packet) (start total : ℕ)
    → start ≤ length ip
    → start ≤ total
    → Fresh p
    → Ensures (Keeps ip) (
        slice ip start (min (length ip) total) >>= λ segment.
        decode_transport p segment (total - start))
transport-Keeps ip p start total h k e =
    let end = min (length ip) total in
    rw (slice_ok ip start end (omega arith) (omega arith)) (
      Ensures-weaken (Keeps (take (end - start) (drop start ip))) (Keeps ip) _
        (decode_transport-Keeps p (take (end - start) (drop start ip)) (total - start) e)
        (λ q kept. Kept-within _ ip q.payload (take-drop-IsSegment ip start (end - start)) kept))

ipv4_body-Keeps :
    (ip : Bytes) (outgoing : Bool) (header_len total_len : ℕ)
    → 20 ≤ length ip
    → header_len ≤ length ip
    → header_len ≤ total_len
    → Ensures (Keeps ip) (ipv4_body ip outgoing header_len total_len)
unfolding ipv4_body
ipv4_body-Keeps ip outgoing header_len total_len h k l =
    Ensures-bind Fresh (Keeps ip) (ip_packet ip outgoing ipv4 9 12 4 total_len) _
      (ip_packet-Fresh ip outgoing ipv4 9 12 4 total_len (omega arith) (omega arith))
      (λ p fresh.
        Ensures-bind Fresh (Keeps ip) (ipv4_fragment p ip) _ (ipv4_fragment-Fresh p ip h fresh)
          (λ q fresh'. ground (arith, Kept-nil ip, transport-Keeps ip q header_len total_len)))

Keeps-some :
    (ip : Bytes) (m : Res Packet)
    → Ensures (Keeps ip) m
    → Ensures (KeepsAny ip) (m >>= λ p. ok (some p))
Keeps-some ip m h = Ensures-bind (Keeps ip) (KeepsAny ip) m _ h (λ p kept. kept)

decode_ipv4-KeepsAny :
    (ip : Bytes) (outgoing : Bool) → Ensures (KeepsAny ip) (decode_ipv4 ip outgoing)
unfolding decode_ipv4
decode_ipv4-KeepsAny ip outgoing =
    let header_len = bit_and (at ip 0) 0x0f * 4 in
    ground (
      arith,
      index_ok ip 0,
      be16_ok ip 2,
      ipv4_body-Keeps ip outgoing header_len (be16_at ip 2),
      Keeps-some ip (ipv4_body ip outgoing header_len (be16_at ip 2)),
    )

-- What holds wherever the walk stands.
abbrev WalkFresh : ℕ → Walk → Type 0
WalkFresh total (finished p) = Fresh p
WalkFresh total (stopped p next offset) = Fresh p × (offset ≤ total)
WalkFresh total (onward p next offset) = Fresh p × (offset ≤ total)

ipv6_advance-WalkFresh :
    (ip : Bytes) (total : ℕ) (p : Packet) (offset step : ℕ)
    → Fresh p
    → offset < length ip
    → Ensures (WalkFresh total) (ipv6_advance ip total p offset step)
unfolding ipv6_advance
ipv6_advance-WalkFresh ip total p offset step e h = ground (arith, index_ok ip offset)

ipv6_fragment-WalkFresh :
    (ip : Bytes) (total : ℕ) (p : Packet) (offset : ℕ)
    → Fresh p
    → offset + 2 ≤ length ip
    → Ensures (WalkFresh total) (ipv6_fragment ip total p offset)
unfolding ipv6_fragment
ipv6_fragment-WalkFresh ip total p offset e h =
    let q = record p {
      fragmented = true;
      fragment_id = be32_at ip (offset + 4);
      fragment_offset = be16_at ip (offset + 2) / 8;
    } in
    ground (
      arith,
      be32_ok ip (offset + 4),
      be16_ok ip (offset + 2),
      index_ok ip offset,
      ipv6_advance-WalkFresh ip total q offset 8,
    )

ipv6_step-WalkFresh :
    (ip : Bytes) (total : ℕ) (p : Packet) (next offset : ℕ)
    → Fresh p
    → offset ≤ total
    → Ensures (WalkFresh total) (ipv6_step ip total p next offset)
unfolding ipv6_step
ipv6_step-WalkFresh ip total p next offset e h =
    let units = at ip (offset + 1) in
    ground (
      arith,
      index_ok ip (offset + 1),
      ipv6_fragment-WalkFresh ip total p offset,
      ipv6_advance-WalkFresh ip total p offset ((units + 2) * 4),
      ipv6_advance-WalkFresh ip total p offset ((units + 1) * 8),
    )

ipv6_walk-WalkFresh :
    (rounds : ℕ) (ip : Bytes) (total : ℕ) (p : Packet) (next offset : ℕ)
    → Fresh p
    → offset ≤ total
    → Ensures (WalkFresh total) (ipv6_walk rounds ip total p next offset)
unfolding ipv6_walk
ipv6_walk-WalkFresh zero ip total p next offset e h = (e, h)
ipv6_walk-WalkFresh (suc rounds) ip total p next offset e h =
    Ensures-bind (WalkFresh total) (WalkFresh total) (ipv6_step ip total p next offset) _
      (ipv6_step-WalkFresh ip total p next offset e h)
      (elim [
        | finished q ↦ λ fresh. fresh
        | stopped q n o ↦ λ fresh. fresh
        | onward q n o ↦ λ fresh. ipv6_walk-WalkFresh rounds ip total q n o fresh.0 fresh.1
      ])

ipv6_transport-Keeps :
    (ip : Bytes) (total : ℕ) (w : Walk)
    → WalkFresh total w
    → Ensures (Keeps ip) (ipv6_transport ip total w)
unfolding ipv6_transport
ipv6_transport-Keeps ip total (finished p) e = rw e (Kept-nil ip)
ipv6_transport-Keeps ip total (onward p next offset) (e, h) = rw e (Kept-nil ip)
ipv6_transport-Keeps ip total (stopped p next offset) (e, h) =
    ground (arith, Kept-nil ip, transport-Keeps ip (record p { protocol = next }) offset total)

-- Behind the version test.
ipv6_body-KeepsAny :
    (ip : Bytes) (outgoing : Bool) (total : ℕ)
    → 40 ≤ length ip
    → 40 ≤ total
    → Ensures (KeepsAny ip) (ipv6_body ip outgoing total)
unfolding ipv6_body
ipv6_body-KeepsAny ip outgoing total h k =
    Ensures-bind Fresh (KeepsAny ip) (ip_packet ip outgoing ipv6 6 8 16 total) _
      (ip_packet-Fresh ip outgoing ipv6 6 8 16 total (omega arith) (omega arith))
      (λ p fresh.
        Ensures-bind (WalkFresh total) (KeepsAny ip) (ipv6_walk 8 ip total p p.protocol 40) _
          (ipv6_walk-WalkFresh 8 ip total p p.protocol 40 fresh k)
          (λ w walked.
            Ensures-bind (Keeps ip) (KeepsAny ip) (ipv6_transport ip total w) _
              (ipv6_transport-Keeps ip total w walked) (λ q kept. kept)))

decode_ipv6-KeepsAny :
    (ip : Bytes) (outgoing : Bool) → Ensures (KeepsAny ip) (decode_ipv6 ip outgoing)
unfolding decode_ipv6
decode_ipv6-KeepsAny ip outgoing =
    ground (arith, index_ok ip 0, be16_ok ip 4, ipv6_body-KeepsAny ip outgoing (40 + be16_at ip 4))

decode_arp-KeepsAny :
    (arp : Bytes) (outgoing : Bool) → Ensures (KeepsAny arp) (decode_arp arp outgoing)
unfolding decode_arp is_ethernet_arp
decode_arp-KeepsAny arp outgoing = ground (
  arith,
  be16_ok arp 0,
  be16_ok arp 2,
  index_ok arp 4,
  index_ok arp 5,
  be16_ok arp 6,
  slice_ok arp 14 18,
  slice_ok arp 24 28,
  slice_ok arp 8 14,
  Kept-nil arp,
)

pub decode_network-KeepsAny :
    (body : Bytes) (ether_type : ℕ) (outgoing : Bool)
    → Ensures (KeepsAny body) (decode_network body ether_type outgoing)
unfolding decode_network
decode_network-KeepsAny body ether_type outgoing = ground (
  arith,
  Kept-nil body,
  decode_ipv4-KeepsAny body outgoing,
  decode_ipv6-KeepsAny body outgoing,
  decode_arp-KeepsAny body outgoing,
)

-- The offset behind the tags stays inside the frame.
abbrev Inside : ℕ → Option (ℕ × ℕ) → Type 0
Inside n none = Unit {0}
Inside n (some (ether_type, offset)) = offset ≤ n

skip_vlan-Inside :
    (rounds : ℕ) (frame : Bytes) (ether_type offset : ℕ)
    → offset ≤ length frame
    → Ensures (Inside (length frame)) (skip_vlan rounds frame ether_type offset)
unfolding skip_vlan
skip_vlan-Inside zero frame ether_type offset h = h
skip_vlan-Inside (suc rounds) frame ether_type offset h = ground (
  arith,
  be16_ok frame (offset + 2),
  skip_vlan-Inside rounds frame (be16_at frame (offset + 2)) (offset + 4),
)

skip_pppoe-Inside :
    (frame : Bytes) (ether_type offset : ℕ)
    → offset ≤ length frame
    → Ensures (λ r. r.1 ≤ length frame) (skip_pppoe frame ether_type offset)
unfolding skip_pppoe
skip_pppoe-Inside frame ether_type offset h = ground (arith, be16_ok frame (offset + 6))

decode_behind-KeepsAny :
    (frame : Bytes) (outgoing : Bool) (tagged : Option (ℕ × ℕ))
    → Inside (length frame) tagged
    → Ensures (KeepsAny frame) (decode_behind frame outgoing tagged)
unfolding decode_behind
decode_behind-KeepsAny frame outgoing none h = tt
decode_behind-KeepsAny frame outgoing (some (ether_type, offset)) h =
    Ensures-bind (λ r. r.1 ≤ length frame) (KeepsAny frame) (skip_pppoe frame ether_type offset) _
      (skip_pppoe-Inside frame ether_type offset h)
      (λ r inside. rw (slice_from_ok frame r.1 inside) (
        Ensures-weaken (KeepsAny (drop r.1 frame)) (KeepsAny frame) _
          (decode_network-KeepsAny (drop r.1 frame) r.0 outgoing)
          (elim [
            | none ↦ λ _. tt
            | some p ↦
                λ kept. Kept-within (drop r.1 frame) frame p.payload (drop-IsSegment r.1 frame) kept
          ])))

-- On every byte sequence decoding returns without a panic, and a packet that it returns holds as
-- its payload a contiguous piece of the frame, of at most 16384 bytes.
pub decode-KeepsAny :
    (frame : Bytes) (outgoing : Bool) → Ensures (KeepsAny frame) (decode frame outgoing)
unfolding decode
decode-KeepsAny frame outgoing = elim (Bool-cases (ltb (length frame) 14)) [
  | inl short ↦ rw short tt
  | inr long ↦
      rw (long, be16_ok frame 12 (omega tests))
        (Ensures-bind (Inside (length frame)) (KeepsAny frame)
          (skip_vlan 2 frame (be16_at frame 12) 14) (decode_behind frame outgoing)
          (skip_vlan-Inside 2 frame (be16_at frame 12) 14 (omega tests))
          (decode_behind-KeepsAny frame outgoing))
]
