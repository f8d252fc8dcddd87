-- ===== src/Capture/Tests.antt =====
-- Frames decoded, and the theorems at these frames.
use socktrail.Base.{
  ◌≡◌, refl, true, inl, [], ◌∷◌, ◌++◌, Bytes, replicate, some, ok, Ensures, arith, index, slice,
  slice_from, be16, be32,
}
use socktrail.Capture.Packet.{empty_packet, ipv4}
use socktrail.Capture.Transport.{
  decode_transport, decode_ports, decode_udp, udp_limit, is_quic_long, udp_slice,
}
use socktrail.Capture.Network.{
  decode, decode_behind, decode_network, decode_ipv4, ipv4_body, ip_packet, ipv4_fragment,
  skip_vlan, skip_pppoe, ethernet_frame,
}
use socktrail.Capture.Safety.Network.{KeepsAny, decode-KeepsAny}
use socktrail.Capture.Frames.{tagged, decode-tagged, decode-ethernet_frame}

-- A UDP datagram of one byte, 10.0.0.1:1 to 10.0.0.2:2.
abbrev datagram : Bytes
datagram =
    0x45 ∷ 0 ∷ 0 ∷ 29 ∷ 0 ∷ 0 ∷ 0 ∷ 0 ∷ 64 ∷ 17 ∷ 0 ∷ 0 ∷ 10 ∷ 0 ∷ 0 ∷ 1 ∷ 10 ∷ 0 ∷ 0 ∷ 2 ∷ 0 ∷ 1
    ∷ 0 ∷ 2 ∷ 0 ∷ 9 ∷ 0 ∷ 0 ∷ 42 ∷ []

decode-datagram :
    decode (ethernet_frame 0x0800 datagram) true
    ≡ ok (
        some (record empty_packet {
          source = record { addr = ipv4 (10 ∷ 0 ∷ 0 ∷ 1 ∷ []); port = 1 };
          destination = record { addr = ipv4 (10 ∷ 0 ∷ 0 ∷ 2 ∷ []); port = 2 };
          protocol = 17;
          ip_bytes = 29;
          payload = 42 ∷ [];
          outgoing = true;
          has_ports = true;
        }))
unfolding decode decode_behind decode_network decode_ipv4 ipv4_body ip_packet ipv4_fragment
    skip_vlan skip_pppoe ethernet_frame decode_transport decode_ports decode_udp udp_limit
    is_quic_long udp_slice index slice slice_from be16 be32
decode-datagram = refl

decode-KeepsAny_example :
    Ensures
      (KeepsAny (ethernet_frame 0x0800 datagram))
      (decode (ethernet_frame 0x0800 datagram) true)
decode-KeepsAny_example = decode-KeepsAny (ethernet_frame 0x0800 datagram) true

-- The datagram in a PPPoE session.
abbrev session : Bytes
session = 0x11 ∷ 0 ∷ 0 ∷ 1 ∷ 0 ∷ 31 ∷ 0 ∷ 0x21 ∷ datagram

decode-tagged_example :
    decode
      (replicate 12 1
        ++ tagged (record { kind = 0x8100; control = 0 ∷ 5 ∷ [] } ∷ []) 0x8864 session)
      true
    ≡ decode_behind session true (some (0x8864, 0))
decode-tagged_example =
    decode-tagged (replicate 12 1) (record { kind = 0x8100; control = 0 ∷ 5 ∷ [] } ∷ []) 0x8864
      session true refl (record { known = inl refl; two = refl }, tt) (omega arith)
      (record { fits = omega arith; not_vlan = omega arith; not_qinq = omega arith })

decode-ethernet_frame_example :
    decode (ethernet_frame 0x0800 datagram) true ≡ decode_network datagram 0x0800 true
decode-ethernet_frame_example = decode-ethernet_frame 0x0800 datagram true (record {
  fits = omega arith;
  not_vlan = omega arith;
  not_qinq = omega arith;
  not_pppoe = omega arith;
})
