-- ===== src/AppProto/Udp.antt =====
-- internal/appproto/detect.go, UDP. A capture holds less than 2 ^ 32 bytes, so `uint32(len(payload))`
-- is the length; `uint16(len(payload))` is cut to 16 bits.
use socktrail.Base.{
  ℕ, ◌+◌, ◌/◌, ◌%◌, ◌^◌, bit_and, Bool, true, false, not, ◌&&◌, ◌||◌, String, [], ◌∷◌, Option, none,
  some, Bytes, length, take, ltb, leb, ◌==◌, if◌then◌else◌, Res, ok, ◌>>=◌, index, slice_from, be16,
  be32, codes, equal, has_prefix, index_byte, ◌&&?◌, ◌||?◌, test_byte,
}
use socktrail.AppProto.Fields.{
  Detection, detect, detect_name, either_port, slice_equal, dns_message, open_vpn_reset,
  kerberos_tag, rpc_call, text_protocol,
}

-- `quicVersion`
unfoldable pub is_digit : ℕ → Bool
is_digit b = leb b'0' b && leb b b'9'

unfoldable pub quic_version : ℕ → Bool
unfolding is_digit
quic_version v =
    if v == 1 || (v == 0x6b3343cf || (v / 256 == 0xff0000 || v / 256 == 0xfaceb0))
    then true
    else if bit_and v 0x0f0f0f0f == 0x0a0a0a0a
    then true
    else if v / 2 ^ 24 == b'Q' || v / 2 ^ 24 == b'T'
    then bit_and (v / 2 ^ 16) 0xff == b'0'
      && (is_digit (bit_and (v / 256) 0xff) && is_digit (bit_and v 0xff))
    else false

-- `quicLongHeader` from the connection IDs on.
unfoldable pub quic_ids : Bytes → Res Bool
quic_ids payload = do
  dcid ← index payload 5
  if ltb 20 dcid || ltb (length payload) (7 + dcid) then ok false else do
    scid ← index payload (6 + dcid)
    ok (leb scid 20 && leb (7 + dcid + scid) (length payload))

-- `quicLongHeader`
unfoldable pub quic_long_header : Bytes → Res Bool
unfolding quic_ids quic_version
quic_long_header payload =
    (ok (leb 7 (length payload))
      &&? (test_byte (λ b. bit_and b 0xc0 == 0xc0) payload 0
          &&? (do version ← be32 payload 1; ok (quic_version version))))
    &&? quic_ids payload

-- The length of a WireGuard message by its type, 0 where the map has no entry.
unfoldable pub wireguard_size : ℕ → ℕ
wireguard_size kind =
    if kind == 1
    then 148
    else if kind == 2
    then 92
    else if kind == 3
    then 64
    else if kind == 4
    then 32
    else 0

-- The IKE header, behind the marker of NAT traversal where there is one.
unfoldable pub is_ike : Bytes → Res Bool
is_ike ike =
    ok (leb 28 (length ike))
    &&? ((test_byte (λ b. b == 0x20) ike 17 ||? test_byte (λ b. b == 0x10) ike 17)
        &&? (do n ← be32 ike 24; ok (n == length ike)))

-- `end > 1`
unfoldable pub ends_behind_one : Option ℕ → Bool
ends_behind_one none = false
ends_behind_one (some end) = ltb 1 end

unfoldable pub detect_sip : Option String → Res (Option Detection) → Res (Option Detection)
detect_sip none rest = rest
detect_sip (some name) rest =
    if equal (codes name) (codes "SIP")
    then ok (some (record { name = name; source = "payload" }))
    else rest

module _ (payload : Bytes) (port : ℕ → Bool) where
  abbrev size : ℕ
  size = length payload

  unfoldable pub is_stun : Res Bool
  is_stun =
      ok (leb 20 size)
      &&? (test_byte (λ b. bit_and b 0xc0 == 0) payload 0
          &&? ((do cookie ← be32 payload 4; ok (cookie == 0x2112a442))
              &&? (do n ← be16 payload 2; ok (n % 4 == 0))))

  unfoldable pub is_wireguard : Res Bool
  is_wireguard =
      (ok (leb 4 size) &&? slice_equal payload 1 4 (0 ∷ 0 ∷ 0 ∷ []))
      &&? test_byte (λ b. wireguard_size b == size) payload 0

  unfoldable pub is_udp_open_vpn : Res Bool
  is_udp_open_vpn = ok (port 1194 && leb 9 size) &&? test_byte open_vpn_reset payload 0

  unfoldable pub is_dhcp : Res Bool
  is_dhcp =
      ok (leb 240 size && (port 67 || port 68))
      &&? slice_equal payload 236 240 (99 ∷ 130 ∷ 83 ∷ 99 ∷ [])

  unfoldable pub is_dhcp6 : Res Bool
  is_dhcp6 =
      ok (leb 4 size && (port 546 || port 547)) &&? test_byte (λ b. leb 1 b && leb b 13) payload 0

  unfoldable pub is_udp_dns : Res Bool
  is_udp_dns = ok (port 53 || (port 5353 || (port 5355 || port 137))) &&? dns_message payload

  -- The name of what looks like DNS, by its port.
  unfoldable pub dns_name : String
  dns_name =
      if port 5353
      then "mDNS"
      else if port 5355
      then "LLMNR"
      else if port 137
      then "NetBIOS NS"
      else "DNS"

  unfoldable pub is_wireguard_data : Res Bool
  is_wireguard_data =
      ok (ltb 32 size && size % 16 == 0) &&? slice_equal payload 0 4 (4 ∷ 0 ∷ 0 ∷ 0 ∷ [])

  unfoldable pub is_ntp : Res Bool
  is_ntp =
      ok (port 123 && leb 48 size)
      &&? (test_byte (λ b. leb 3 (b / 8 % 8) && leb (b / 8 % 8) 4) payload 0
          &&? test_byte (λ b. leb 1 (b % 8) && leb (b % 8) 5) payload 0)

  unfoldable pub is_ssdp : Res Bool
  is_ssdp = ok (
      port 1900
      && (has_prefix payload (codes "M-SEARCH * HTTP/1.1")
          || (has_prefix payload (codes "NOTIFY * HTTP/1.1")
              || has_prefix payload (codes "HTTP/1.1 200"))))

  unfoldable pub is_vxlan : Res Bool
  is_vxlan =
      ok (port 4789 && leb 16 size)
      &&? (test_byte (λ b. not (bit_and b 0x08 == 0)) payload 0
          &&? slice_equal payload 1 4 (0 ∷ 0 ∷ 0 ∷ []))

  unfoldable pub is_geneve : Res Bool
  is_geneve =
      ok (port 6081 && leb 8 size)
      &&? (test_byte (λ b. b / 64 == 0) payload 0
          &&? (do kind ← be16 payload 2; ok (kind == 0x6558)))

  -- The block on IKE and NAT traversal.
  unfoldable pub detect_ipsec : Res (Option Detection) → Res (Option Detection)
  detect_ipsec rest =
      if not ((port 500 || port 4500) && leb 28 size)
      then rest
      else if port 4500
      then (do
        marker ← slice_equal payload 0 4 (0 ∷ 0 ∷ 0 ∷ 0 ∷ [])
        behind ← slice_from payload 4
        if not marker
            then ok (some (record { name = "IPsec ESP"; source = "payload+port" }))
            else detect "IKE" "payload+port" (is_ike behind) rest)
      else detect "IKE" "payload+port" (is_ike payload) rest

  unfoldable pub is_syslog : Res Bool
  is_syslog =
      ok (port 514 && leb 4 size)
      &&? (test_byte (λ b. b == b'<') payload 0
          &&? ok (ends_behind_one (index_byte b'>' (take 5 payload))))

  unfoldable pub is_tftp : Res Bool
  is_tftp =
      ok (port 69 && leb 4 size)
      &&? (test_byte (λ b. b == 0) payload 0 &&? test_byte (λ b. leb 1 b && leb b 6) payload 1)

  unfoldable pub is_radius : Res Bool
  is_radius =
      ok ((port 1812 || port 1813) && leb 20 size)
      &&? (do n ← be16 payload 2; ok (n == size % 2 ^ 16))

  unfoldable pub is_snmp : Res Bool
  is_snmp =
      ok ((port 161 || port 162) && leb 6 size)
      &&? (test_byte (λ b. b == 0x30) payload 0
          &&? (test_byte (λ b. b == 0x02) payload 2
              &&? (test_byte (λ b. b == 1) payload 3 &&? test_byte (λ b. leb b 3) payload 4)))

  unfoldable pub is_udp_kerberos : Res Bool
  is_udp_kerberos = ok (port 88) &&? test_byte kerberos_tag payload 0

  -- `UDP` on a payload that is not empty.
  unfoldable pub udp_checks : Res (Option Detection)
  udp_checks = detect "STUN" "payload" is_stun (
      detect "WireGuard" "payload" is_wireguard (
        detect "OpenVPN" "reset+port" is_udp_open_vpn (
          detect "DHCP" "payload+port" is_dhcp (
            detect "DHCPv6" "payload+port" is_dhcp6 (
              detect dns_name "payload+port" is_udp_dns (
                detect "QUIC" "long-header" (quic_long_header payload) (
                  detect "WireGuard" "payload" is_wireguard_data (
                    detect "NTP" "payload+port" is_ntp (
                      detect "SSDP" "payload+port" is_ssdp (
                        detect "VXLAN" "payload+port" is_vxlan (
                          detect "GENEVE" "payload+port" is_geneve (
                            detect_ipsec (
                              detect "Syslog" "payload+port" is_syslog (
                                detect "TFTP" "payload+port" is_tftp (
                                  detect "RADIUS" "payload+port" is_radius (
                                    text_protocol payload >>= λ name. detect_sip name (
                                      detect "SNMP" "payload+port" is_snmp (
                                        detect "Kerberos" "payload+port" is_udp_kerberos (
                                          detect_name "payload" (rpc_call payload false)
                                            (ok none))))))))))))))))))))

  unfoldable pub udp_by : Res (Option Detection)
  udp_by = if size == 0 then ok none else udp_checks

-- `UDP`
unfoldable pub udp : Bytes → ℕ → ℕ → Res (Option Detection)
udp payload source destination = udp_by payload (either_port source destination)
