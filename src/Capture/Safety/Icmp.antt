-- ===== src/Capture/Safety/Icmp.antt =====
-- internal/capture/packet.go, decodeICMPDetail and decodeQuoted: their bounds, and the payload.
use socktrail.Base.{
  ℕ, ◌+◌, ◌*◌, ◌≤◌, ◌<◌, Bool, ◌≡◌, refl, true, false, inl, inr, Bytes, length, take, drop,
  Bool-cases, tests, arith, Ensures, Ensures-bind, Ensures-weaken, bit_and, ◌∙◌, index_ok, slice_ok,
  slice_from_ok, be16_ok, be32_ok, leb, at, be16_at, be32_at,
}
use socktrail.Capture.Packet.{Packet, Addr, ipv4, ipv6}
use socktrail.Capture.Quoted.{
  has_version, quoted_ports, quoted_addresses, decode_quoted_v4, decode_quoted, icmp_v4_detail,
  icmp_v6_detail, decode_icmp_detail,
}
use socktrail.Capture.Transport.{icmp_echo, decode_icmp}

-- The packet keeps its payload.
abbrev pub SamePayload : Packet → Packet → Type 0
SamePayload p q = q.payload ≡ p.payload

quoted_ports-SamePayload :
    (p : Packet) (transport : Bytes) → Ensures (SamePayload p) (quoted_ports p transport)
unfolding quoted_ports
quoted_ports-SamePayload p transport = ground (arith, be16_ok transport 0, be16_ok transport 2)

quoted_addresses-SamePayload :
    (p : Packet) (inner : Bytes) (family : Bytes → Addr) (proto from width header_len : ℕ)
    → proto < length inner
    → from + width + width ≤ length inner
    → header_len ≤ length inner
    → Ensures (SamePayload p) (quoted_addresses p inner family proto from width header_len)
unfolding quoted_addresses quoted_ports
quoted_addresses-SamePayload p inner family proto from width header_len hp ha hh = ground (
  arith,
  index_ok inner proto,
  slice_ok inner from (from + width),
  slice_ok inner (from + width) (from + width + width),
  slice_from_ok inner header_len,
  be16_ok (drop header_len inner) 0,
  be16_ok (drop header_len inner) 2,
)

decode_quoted_v4-SamePayload :
    (p : Packet) (inner : Bytes)
    → 20 ≤ length inner
    → Ensures (SamePayload p) (decode_quoted_v4 p inner)
unfolding decode_quoted_v4
decode_quoted_v4-SamePayload p inner h = ground (
  arith,
  index_ok inner 0,
  quoted_addresses-SamePayload p inner ipv4 9 12 4 (bit_and (at inner 0) 0x0f * 4),
)

decode_quoted-SamePayload :
    (p : Packet) (inner : Bytes) (v6 : Bool) → Ensures (SamePayload p) (decode_quoted p inner v6)
unfolding decode_quoted has_version
decode_quoted-SamePayload p inner false =
    ground (arith, index_ok inner 0, decode_quoted_v4-SamePayload p inner)
decode_quoted-SamePayload p inner true =
    ground (arith, index_ok inner 0, quoted_addresses-SamePayload p inner ipv6 6 8 16 40)

icmp_v4_detail-SamePayload :
    (p : Packet) (body : Bytes) → 8 ≤ length body → Ensures (SamePayload p) (icmp_v4_detail p body)
unfolding icmp_v4_detail
icmp_v4_detail-SamePayload p body h = ground (
  arith,
  be16_ok body 6,
  slice_ok body 4 8,
  slice_from_ok body 8,
  decode_quoted-SamePayload p (drop 8 body) false,
  decode_quoted-SamePayload (record p { icmp_value = be16_at body 6 }) (drop 8 body) false,
  decode_quoted-SamePayload (record p { icmp_target = ipv4 (take 4 (drop 4 body)) }) (drop 8 body)
      false,
)

icmp_v6_detail-SamePayload :
    (p : Packet) (body : Bytes) → 8 ≤ length body → Ensures (SamePayload p) (icmp_v6_detail p body)
unfolding icmp_v6_detail
icmp_v6_detail-SamePayload p body h = ground (
  arith,
  be32_ok body 4,
  slice_ok body 8 24,
  slice_from_ok body 8,
  decode_quoted-SamePayload p (drop 8 body) true,
  decode_quoted-SamePayload (record p { icmp_value = be32_at body 4 }) (drop 8 body) true,
)

decode_icmp_detail-SamePayload :
    (p : Packet) (body : Bytes) → Ensures (SamePayload p) (decode_icmp_detail p body)
unfolding decode_icmp_detail
decode_icmp_detail-SamePayload p body =
    ground (arith, icmp_v4_detail-SamePayload p body, icmp_v6_detail-SamePayload p body)

icmp_echo-SamePayload : (p : Packet) (body : Bytes) → Ensures (SamePayload p) (icmp_echo p body)
unfolding icmp_echo
icmp_echo-SamePayload p body = ground (arith, be16_ok body 4, be16_ok body 6)

pub decode_icmp-SamePayload :
    (p : Packet) (body : Bytes) → Ensures (SamePayload p) (decode_icmp p body)
unfolding decode_icmp
decode_icmp-SamePayload p body = elim (Bool-cases (leb 2 (length body))) [
  | inl long ↦
      rw (long, index_ok body 0 (omega tests), index_ok body 1 (omega tests))
        (let typed = record p { icmp_type = at body 0; icmp_code = at body 1 } in
          Ensures-bind (SamePayload typed) (SamePayload p) (icmp_echo typed body)
            (λ q. decode_icmp_detail q body) (icmp_echo-SamePayload typed body)
            (λ q same.
              Ensures-weaken (SamePayload q) (SamePayload p) (decode_icmp_detail q body)
                (decode_icmp_detail-SamePayload q body) (λ r also. also ∙ same)))
  | inr short ↦ rw short refl
]
