-- ===== src/Capture/Safety/Transport.antt =====
-- internal/capture/packet.go, decodeTransport: the bounds of transport headers and payloads.
use socktrail.Base.{
  ℕ, ◌+◌, ◌-◌, ◌≤◌, min, ◌≡◌, refl, true, inl, inr, [], Bytes, length, take, drop, take-append-drop,
  length-take, Bool-cases, tests, arith, IsSegment, Ensures, Ensures-bind, Ensures-weaken, sym,
  index_ok, slice_ok, be16_ok, be32_ok, leb, ltb, be16_at, ◌&&◌,
}
use socktrail.Capture.Packet.{Packet, max_tcp_payload}
use socktrail.Capture.Transport.{
  tcp_payload, decode_tcp, with_port, udp_slice, is_quic_long, udp_limit, decode_udp, decode_ports,
  decode_icmp, decode_transport,
}
use socktrail.Capture.Safety.Icmp.{SamePayload, decode_icmp-SamePayload}

-- A piece of `whole`, of at most `max_tcp_payload` bytes.
pub record Kept (whole part : Bytes) : Type 0 where
  pub piece : IsSegment part whole
  pub bound : length part ≤ max_tcp_payload

abbrev pub Keeps : Bytes → Packet → Type 0
Keeps whole p = Kept whole p.payload

pub take-drop-IsSegment : (b : Bytes) (i n : ℕ) → IsSegment (take n (drop i b)) b
take-drop-IsSegment b i n =
    (take i b, drop n (drop i b), sym (rw take-append-drop (take-append-drop i b)))

Kept-slice : (b : Bytes) (i n : ℕ) → n ≤ max_tcp_payload → Kept b (take n (drop i b))
Kept-slice b i n h = record {
  piece = take-drop-IsSegment b i n;
  bound = omega (arith, length-take n (drop i b));
}

pub Kept-nil : (b : Bytes) → Kept b []
Kept-nil b = record { piece = ([], b, refl); bound = omega arith }

tcp_payload-Keeps :
    (p : Packet) (segment : Bytes) (wire_length header_len : ℕ)
    → p.payload ≡ []
    → Ensures (Keeps segment) (tcp_payload p segment wire_length header_len)
unfolding tcp_payload
tcp_payload-Keeps p segment wire_length header_len e =
    elim (Bool-cases (leb 20 header_len && leb header_len (length segment))) [
      | inl fits ↦
          let end = min (length segment) (header_len + max_tcp_payload) in
          let h : header_len ≤ length segment = ground arith in
          rw (fits, slice_ok segment header_len end (omega arith) (omega arith))
            (Kept-slice segment header_len (end - header_len) (omega arith))
      | inr cut ↦ rw (cut, e) (Kept-nil segment)
    ]

decode_tcp-Keeps :
    (p : Packet) (segment : Bytes) (wire_length : ℕ)
    → 20 ≤ length segment
    → p.payload ≡ []
    → Ensures (Keeps segment) (decode_tcp p segment wire_length)
unfolding decode_tcp
decode_tcp-Keeps p segment wire_length h e =
    rw
      (
        be32_ok segment 4 (omega arith),
        be32_ok segment 8 (omega arith),
        index_ok segment 13 (omega arith),
        index_ok segment 12 (omega arith),
      )
      (tcp_payload-Keeps _ segment wire_length _ e)

udp_limit_bound :
    (p : Packet) (segment : Bytes) → Ensures (λ n. n ≤ max_tcp_payload) (udp_limit p segment)
unfolding udp_limit is_quic_long
udp_limit_bound p segment = ground (arith, index_ok segment 8, be32_ok segment 9)

-- The datagram's payload, under the limit that was chosen for it.
udp_slice-Keeps :
    (p : Packet) (segment : Bytes) (udp_length limit : ℕ)
    → 8 ≤ length segment
    → 8 ≤ udp_length
    → limit ≤ max_tcp_payload
    → Ensures (Keeps segment) (udp_slice p segment udp_length limit)
unfolding udp_slice
udp_slice-Keeps p segment udp_length limit h k l =
    let end = min (min (length segment) udp_length) (8 + limit) in
    rw (slice_ok segment 8 end (omega arith) (omega arith))
      (Kept-slice segment 8 (end - 8) (omega arith))

decode_udp-Keeps :
    (p : Packet) (segment : Bytes)
    → 8 ≤ length segment
    → p.payload ≡ []
    → Ensures (Keeps segment) (decode_udp p segment)
unfolding decode_udp
decode_udp-Keeps p segment h e =
    rw (be16_ok segment 4 (omega arith)) (elim (Bool-cases (ltb (be16_at segment 4) 8)) [
      | inl short ↦ rw (short, e) (Kept-nil segment)
      | inr long ↦ rw long (
          Ensures-bind (λ n. n ≤ max_tcp_payload) (Keeps segment) (udp_limit p segment) _
            (udp_limit_bound p segment)
            (λ limit l. udp_slice-Keeps p segment _ limit h (omega tests) l))
    ])

decode_ports-Keeps :
    (p : Packet) (segment : Bytes) (wire_length : ℕ)
    → p.payload ≡ []
    → Ensures (Keeps segment) (decode_ports p segment wire_length)
unfolding decode_ports
decode_ports-Keeps p segment wire_length e =
    let q = record p {
      source = with_port p.source (be16_at segment 0);
      destination = with_port p.destination (be16_at segment 2);
      has_ports = true;
    } in
    ground (
      arith,
      be16_ok segment 0,
      be16_ok segment 2,
      Kept-nil segment,
      decode_tcp-Keeps q segment wire_length,
      decode_udp-Keeps q segment,
    )

decode_icmp-Keeps :
    (p : Packet) (segment : Bytes)
    → p.payload ≡ []
    → Ensures (Keeps segment) (decode_icmp p segment)
decode_icmp-Keeps p segment e =
    Ensures-weaken (SamePayload p) (Keeps segment) (decode_icmp p segment)
      (decode_icmp-SamePayload p segment) (λ q same. rw (same, e) (Kept-nil segment))

pub decode_transport-Keeps :
    (p : Packet) (segment : Bytes) (wire_length : ℕ)
    → p.payload ≡ []
    → Ensures (Keeps segment) (decode_transport p segment wire_length)
unfolding decode_transport
decode_transport-Keeps p segment wire_length e =
    ground (
      arith,
      Kept-nil segment,
      decode_ports-Keeps p segment wire_length,
      decode_icmp-Keeps p segment,
    )
