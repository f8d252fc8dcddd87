-- ===== src/AppProto/Safety/Tcp.antt =====
-- internal/appproto/detect.go: the bounds of TCP.
use socktrail.Base.{
  ℕ, ◌+◌, ◌-◌, ◌<◌, Bool, true, Bytes, length, take, drop, be16_at, arith, codes, ◌∷◌, Runs,
  index_ok, slice_ok, be16_ok, be32_ok, le32_ok,
}
use socktrail.AppProto.Safety.Fields.{
  detect-Runs, detect_name-Runs, slice_equal-Runs, dns_message-Runs, rpc_call-Runs,
  text_protocol-Runs,
}
use socktrail.AppProto.Fields.{either_port}
use socktrail.AppProto.Safety.TcpFields.{mysql_greeting-Runs, ported_tcp-Runs}
use socktrail.AppProto.Tcp.{
  tcp_checks, tcp_by, tcp, is_ssh, is_bittorrent, is_mqtt, is_tls, is_http, is_http2, is_tcp_dns,
  is_tcp_open_vpn, is_ftp, is_smtp, is_redis, is_postgresql, is_smb, is_rdp, is_vnc, is_telnet,
  is_mongodb, is_amqp,
}

module _ (payload : Bytes) (port : ℕ → Bool) where
  is_ssh-Runs : Runs (is_ssh payload port)
  unfolding is_ssh
  is_ssh-Runs = ground (arith)

  is_bittorrent-Runs : Runs (is_bittorrent payload port)
  unfolding is_bittorrent
  is_bittorrent-Runs =
      ground
        (arith, index_ok payload 0, slice_equal-Runs payload 1 20 (codes "BitTorrent protocol"))

  is_mqtt-Runs : Runs (is_mqtt payload port)
  unfolding is_mqtt
  is_mqtt-Runs = ground (
    arith,
    index_ok payload 0,
    index_ok payload 1,
    slice_equal-Runs payload 2 8 (0 ∷ 4 ∷ codes "MQTT"),
  )

  is_tls-Runs : Runs (is_tls payload port)
  unfolding is_tls
  is_tls-Runs =
      ground (arith, index_ok payload 0, index_ok payload 1, index_ok payload 2, be16_ok payload 3)

  is_http-Runs : Runs (is_http payload port)
  unfolding is_http
  is_http-Runs = ground (arith)

  is_http2-Runs : Runs (is_http2 payload port)
  unfolding is_http2
  is_http2-Runs = ground (arith)

  is_tcp_dns-Runs : Runs (is_tcp_dns payload port)
  unfolding is_tcp_dns
  is_tcp_dns-Runs = ground (
    arith,
    be16_ok payload 0,
    slice_ok payload 2 (2 + be16_at payload 0),
    dns_message-Runs (take (2 + be16_at payload 0 - 2) (drop 2 payload)),
  )

  is_tcp_open_vpn-Runs : Runs (is_tcp_open_vpn payload port)
  unfolding is_tcp_open_vpn
  is_tcp_open_vpn-Runs = ground (arith, index_ok payload 2, be16_ok payload 0)

  is_ftp-Runs : Runs (is_ftp payload port)
  unfolding is_ftp
  is_ftp-Runs = ground (arith)

  is_smtp-Runs : Runs (is_smtp payload port)
  unfolding is_smtp
  is_smtp-Runs = ground (arith)

  is_redis-Runs : Runs (is_redis payload port)
  unfolding is_redis
  is_redis-Runs = ground (arith, index_ok payload 0)

  is_postgresql-Runs : Runs (is_postgresql payload port)
  unfolding is_postgresql
  is_postgresql-Runs = ground (arith, be32_ok payload 0, be32_ok payload 4)

  is_smb-Runs : Runs (is_smb payload port)
  unfolding is_smb
  is_smb-Runs = ground (
    arith,
    index_ok payload 0,
    slice_equal-Runs payload 4 8 (0xff ∷ codes "SMB"),
    slice_equal-Runs payload 4 8 (0xfe ∷ codes "SMB"),
  )

  is_rdp-Runs : Runs (is_rdp payload port)
  unfolding is_rdp
  is_rdp-Runs = ground (arith, index_ok payload 0, index_ok payload 1, index_ok payload 5)

  is_vnc-Runs : Runs (is_vnc payload port)
  unfolding is_vnc
  is_vnc-Runs = ground (arith)

  is_telnet-Runs : Runs (is_telnet payload port)
  unfolding is_telnet
  is_telnet-Runs = ground (arith, index_ok payload 0, index_ok payload 1)

  is_mongodb-Runs : Runs (is_mongodb payload port)
  unfolding is_mongodb
  is_mongodb-Runs = ground (arith, le32_ok payload 0, le32_ok payload 12)

  is_amqp-Runs : Runs (is_amqp payload port)
  unfolding is_amqp
  is_amqp-Runs = ground (arith, index_ok payload 4)

  tcp_checks-Runs : 0 < length payload → Runs (tcp_checks payload port)
  unfolding tcp_checks
  tcp_checks-Runs h = detect-Runs _ _ _ _ is_ssh-Runs (
      detect-Runs _ _ _ _ is_bittorrent-Runs (
        detect-Runs _ _ _ _ is_mqtt-Runs (
          detect-Runs _ _ _ _ is_tls-Runs (
            detect-Runs _ _ _ _ is_http-Runs (
              detect-Runs _ _ _ _ is_http2-Runs (
                detect-Runs _ _ _ _ is_tcp_dns-Runs (
                  detect-Runs _ _ _ _ is_tcp_open_vpn-Runs (
                    detect-Runs _ _ _ _ is_ftp-Runs (
                      detect-Runs _ _ _ _ is_smtp-Runs (
                        detect-Runs _ _ _ _ is_redis-Runs (
                          detect-Runs _ _ _ _ is_postgresql-Runs (
                            detect-Runs _ _ _ _ is_smb-Runs (
                              detect-Runs _ _ _ _ is_rdp-Runs (
                                detect-Runs _ _ _ _ (mysql_greeting-Runs payload) (
                                  detect-Runs _ _ _ _ is_vnc-Runs (
                                    detect-Runs _ _ _ _ is_telnet-Runs (
                                      detect-Runs _ _ _ _ is_mongodb-Runs (
                                        detect-Runs _ _ _ _ is_amqp-Runs (
                                          detect_name-Runs _ _ _ (rpc_call-Runs payload true) (
                                            detect_name-Runs _ _ _ (ported_tcp-Runs payload port h)
                                              (detect_name-Runs _ _ _ (text_protocol-Runs payload)
                                                tt)))))))))))))))))))))

  tcp_by-Runs : Runs (tcp_by payload port)
  unfolding tcp_by
  tcp_by-Runs = ground (arith, tcp_checks-Runs)

-- On every payload and every pair of ports, TCP detection does not panic.
pub tcp-Runs : (payload : Bytes) (source destination : ℕ) → Runs (tcp payload source destination)
unfolding tcp
tcp-Runs payload source destination = tcp_by-Runs payload (either_port source destination)
