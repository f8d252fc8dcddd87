-- ===== src/AppProto/Safety/Udp.antt =====
-- internal/appproto/detect.go: the bounds of UDP.
use socktrail.Base.{
  ℕ, ◌+◌, ◌≤◌, ◌<◌, Bool, false, String, [], Option, none, some, Bytes, length, drop, at, arith,
  Res, ok, ◌∷◌, Ensures-bind, Runs, index_ok, be16_ok, be32_ok, slice_from_ok,
}
use socktrail.AppProto.Safety.Fields.{
  detect-Runs, detect_name-Runs, slice_equal-Runs, dns_message-Runs, rpc_call-Runs,
  text_protocol-Runs,
}
use socktrail.AppProto.Fields.{Detection, rpc_call, text_protocol, detect, detect_name, either_port}
use socktrail.AppProto.Udp.{
  quic_ids, quic_long_header, is_ike, detect_ipsec, detect_sip, udp_checks, udp_by, udp, is_stun,
  is_wireguard, is_udp_open_vpn, is_dhcp, is_dhcp6, is_udp_dns, is_wireguard_data, is_ntp, is_ssdp,
  is_vxlan, is_geneve, is_syslog, is_tftp, is_radius, is_snmp, is_udp_kerberos,
}

quic_ids-Runs : (payload : Bytes) → 7 ≤ length payload → Runs (quic_ids payload)
unfolding quic_ids
quic_ids-Runs payload h = ground (arith, index_ok payload 5, index_ok payload (6 + at payload 5))

quic_long_header-Runs : (payload : Bytes) → Runs (quic_long_header payload)
unfolding quic_long_header
quic_long_header-Runs payload =
    ground (arith, index_ok payload 0, be32_ok payload 1, quic_ids-Runs payload)

is_ike-Runs : (ike : Bytes) → Runs (is_ike ike)
unfolding is_ike
is_ike-Runs ike = ground (arith, index_ok ike 17, be32_ok ike 24)

detect_sip-Runs :
    (name : Option String) (rest : Res (Option Detection)) → Runs rest → Runs (detect_sip name rest)
unfolding detect_sip
detect_sip-Runs none rest h = h
detect_sip-Runs (some name) rest h = ground (arith, h)

module _ (payload : Bytes) (port : ℕ → Bool) where
  is_stun-Runs : Runs (is_stun payload port)
  unfolding is_stun
  is_stun-Runs = ground (arith, index_ok payload 0, be32_ok payload 4, be16_ok payload 2)

  is_wireguard-Runs : Runs (is_wireguard payload port)
  unfolding is_wireguard
  is_wireguard-Runs =
      ground (arith, index_ok payload 0, slice_equal-Runs payload 1 4 (0 ∷ 0 ∷ 0 ∷ []))

  is_udp_open_vpn-Runs : Runs (is_udp_open_vpn payload port)
  unfolding is_udp_open_vpn
  is_udp_open_vpn-Runs = ground (arith, index_ok payload 0)

  is_dhcp-Runs : Runs (is_dhcp payload port)
  unfolding is_dhcp
  is_dhcp-Runs = ground (arith, slice_equal-Runs payload 236 240 (99 ∷ 130 ∷ 83 ∷ 99 ∷ []))

  is_dhcp6-Runs : Runs (is_dhcp6 payload port)
  unfolding is_dhcp6
  is_dhcp6-Runs = ground (arith, index_ok payload 0)

  is_udp_dns-Runs : Runs (is_udp_dns payload port)
  unfolding is_udp_dns
  is_udp_dns-Runs = ground (arith, dns_message-Runs payload)

  is_wireguard_data-Runs : Runs (is_wireguard_data payload port)
  unfolding is_wireguard_data
  is_wireguard_data-Runs = ground (arith, slice_equal-Runs payload 0 4 (4 ∷ 0 ∷ 0 ∷ 0 ∷ []))

  is_ntp-Runs : Runs (is_ntp payload port)
  unfolding is_ntp
  is_ntp-Runs = ground (arith, index_ok payload 0)

  is_ssdp-Runs : Runs (is_ssdp payload port)
  unfolding is_ssdp
  is_ssdp-Runs = ground (arith)

  is_vxlan-Runs : Runs (is_vxlan payload port)
  unfolding is_vxlan
  is_vxlan-Runs = ground (arith, index_ok payload 0, slice_equal-Runs payload 1 4 (0 ∷ 0 ∷ 0 ∷ []))

  is_geneve-Runs : Runs (is_geneve payload port)
  unfolding is_geneve
  is_geneve-Runs = ground (arith, index_ok payload 0, be16_ok payload 2)

  is_syslog-Runs : Runs (is_syslog payload port)
  unfolding is_syslog
  is_syslog-Runs = ground (arith, index_ok payload 0)

  is_tftp-Runs : Runs (is_tftp payload port)
  unfolding is_tftp
  is_tftp-Runs = ground (arith, index_ok payload 0, index_ok payload 1)

  is_radius-Runs : Runs (is_radius payload port)
  unfolding is_radius
  is_radius-Runs = ground (arith, be16_ok payload 2)

  is_snmp-Runs : Runs (is_snmp payload port)
  unfolding is_snmp
  is_snmp-Runs =
      ground (arith, index_ok payload 0, index_ok payload 2, index_ok payload 3, index_ok payload 4)

  is_udp_kerberos-Runs : 0 < length payload → Runs (is_udp_kerberos payload port)
  unfolding is_udp_kerberos
  is_udp_kerberos-Runs h = ground (arith, index_ok payload 0)

  detect_ipsec-Runs :
      (rest : Res (Option Detection)) → Runs rest → Runs (detect_ipsec payload port rest)
  unfolding detect_ipsec
  detect_ipsec-Runs rest h =
      let behind = drop 4 payload in
      ground (
        arith,
        slice_from_ok payload 4,
        slice_equal-Runs payload 0 4 (0 ∷ 0 ∷ 0 ∷ 0 ∷ []),
        detect-Runs "IKE" "payload+port" (is_ike behind) rest (is_ike-Runs behind) h,
        detect-Runs "IKE" "payload+port" (is_ike payload) rest (is_ike-Runs payload) h,
      )

  udp_checks-Runs : 0 < length payload → Runs (udp_checks payload port)
  unfolding udp_checks
  udp_checks-Runs h =
      let behind_text : Runs (
          detect "SNMP" "payload+port" (is_snmp payload port) (
            detect "Kerberos" "payload+port" (is_udp_kerberos payload port)
              (detect_name "payload" (rpc_call payload false) (ok none)))) =
        detect-Runs _ _ _ _ is_snmp-Runs (
          detect-Runs _ _ _ _ (is_udp_kerberos-Runs h)
            (detect_name-Runs _ _ _ (rpc_call-Runs payload false) tt)) in
      detect-Runs _ _ _ _ is_stun-Runs (
        detect-Runs _ _ _ _ is_wireguard-Runs (
          detect-Runs _ _ _ _ is_udp_open_vpn-Runs (
            detect-Runs _ _ _ _ is_dhcp-Runs (
              detect-Runs _ _ _ _ is_dhcp6-Runs (
                detect-Runs _ _ _ _ is_udp_dns-Runs (
                  detect-Runs _ _ _ _ (quic_long_header-Runs payload) (
                    detect-Runs _ _ _ _ is_wireguard_data-Runs (
                      detect-Runs _ _ _ _ is_ntp-Runs (
                        detect-Runs _ _ _ _ is_ssdp-Runs (
                          detect-Runs _ _ _ _ is_vxlan-Runs (
                            detect-Runs _ _ _ _ is_geneve-Runs (
                              detect_ipsec-Runs _ (
                                detect-Runs _ _ _ _ is_syslog-Runs (
                                  detect-Runs _ _ _ _ is_tftp-Runs (
                                    detect-Runs _ _ _ _ is_radius-Runs (
                                      Ensures-bind (λ _. Unit {0}) (λ _. Unit {0})
                                        (text_protocol payload) _ (text_protocol-Runs payload)
                                        (λ name t.
                                          detect_sip-Runs name _ behind_text)))))))))))))))))

  udp_by-Runs : Runs (udp_by payload port)
  unfolding udp_by
  udp_by-Runs = ground (arith, udp_checks-Runs)

-- On every payload and every pair of ports, UDP detection does not panic.
pub udp-Runs : (payload : Bytes) (source destination : ℕ) → Runs (udp payload source destination)
unfolding udp
udp-Runs payload source destination = udp_by-Runs payload (either_port source destination)
