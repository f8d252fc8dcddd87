-- ===== src/AppProto/Tcp.antt =====
-- internal/appproto/detect.go, TCP and portedTCP. A condition that reads bytes may panic; `&&?` and
-- `||?` leave its right side out where Go does. A capture holds less than 2 ^ 32 bytes, so
-- `uint32(len(payload))` is the length.
use socktrail.Base.{
  ℕ, suc, ◌+◌, ◌-◌, ◌*◌, bit_and, Bool, true, false, not, ◌&&◌, ◌||◌, String, List, [], ◌∷◌, Option,
  none, some, Bytes, length, take, ltb, leb, ◌==◌, if◌then◌else◌, Res, ok, ◌>>=◌, index, slice,
  be16, be32, le32, codes, equal, has_prefix, index_byte, contains, is_some, ◌&&?◌, ◌||?◌,
  test_byte,
}
use socktrail.AppProto.Fields.{
  Detection, detect, detect_name, either_port, slice_equal, http_request, dns_message,
  open_vpn_reset, kerberos_tag, rpc_call, text_protocol,
}

-- `mongoOpCode`
unfoldable pub mongo_op_code : ℕ → Bool
mongo_op_code op =
    op == 1
    || (op == 2001
        || (op == 2002
            || (op == 2004 || (leb 2005 op && leb op 2007) || (leb 2010 op && leb op 2013))))

unfoldable pub first_of : List ℕ → Bytes → Option ℕ
first_of seps [] = none
first_of seps (b ∷ bs) =
    let later = first_of seps bs in
    if is_some (index_byte b seps)
    then some 0
    else elim later [ none ↦ none | some i ↦ some (suc i) ]

unfoldable pub one_of : List Bytes → Bytes → Bool
one_of [] b = false
one_of (word ∷ words) b = let later = one_of words b in if equal b word then true else later

-- `memcachedCommand`
unfoldable pub memcached_command : Bytes → Bool
unfolding first_of one_of
memcached_command payload =
    let command = take 16 payload in
    let word : Bytes = elim (first_of (32 ∷ 13 ∷ 10 ∷ []) command) [
      | none ↦ command
      | some end ↦ take end command
    ] in
    one_of
      (codes "get"
        ∷ codes "gets"
        ∷ codes "gat"
        ∷ codes "gats"
        ∷ codes "set"
        ∷ codes "add"
        ∷ codes "replace"
        ∷ codes "append"
        ∷ codes "prepend"
        ∷ codes "cas"
        ∷ codes "delete"
        ∷ codes "incr"
        ∷ codes "decr"
        ∷ codes "touch"
        ∷ codes "stats"
        ∷ codes "version"
        ∷ codes "flush_all"
        ∷ codes "mg"
        ∷ codes "ms"
        ∷ codes "md"
        ∷ codes "ma"
        ∷ codes "mn"
        ∷ [])
      word

-- `ldapMessage` from the message ID on.
unfoldable pub ldap_id : Bytes → ℕ → Res Bool
ldap_id payload offset =
    (ok (leb (offset + 3) (length payload))
      &&? (test_byte (λ b. b == 2) payload offset
          &&? (test_byte (λ b. not (b == 0)) payload (offset + 1)
              &&? test_byte (λ b. leb b 4) payload (offset + 1))))
    &&? (do
      size ← index payload (offset + 1)
      ok (ltb (offset + 2 + size) (length payload))
          &&? test_byte (λ b. bit_and b 0xc0 == 0x40) payload (offset + 2 + size))

-- `ldapMessage`
unfoldable pub ldap_message : Bytes → Res Bool
unfolding ldap_id
ldap_message payload =
    (ok (leb 7 (length payload)) &&? test_byte (λ b. b == 0x30) payload 0) &&? (do
      size ← index payload 1
      ldap_id payload (if bit_and size 0x80 == 0 then 2 else 2 + bit_and size 0x7f))

unfoldable pub all_printable : Bytes → Bool
all_printable [] = true
all_printable (b ∷ bs) = if ltb b 32 || ltb 126 b then false else all_printable bs

-- `mysqlGreeting` from the version string on.
unfoldable pub mysql_version : Bytes → Option ℕ → Res Bool
mysql_version payload none = ok false
mysql_version payload (some end) = if ltb end 1 then ok false else do
  version ← slice payload 5 (5 + end)
  if not (all_printable version)
      then ok false
      else (test_byte (λ b. leb b'0' b) payload 5 &&? test_byte (λ b. leb b b'9') payload 5)

-- `mysqlGreeting`
unfoldable pub mysql_greeting : Bytes → Res Bool
unfolding mysql_version
mysql_greeting payload =
    (ok (leb 16 (length payload))
      &&? (test_byte (λ b. b == 0) payload 3 &&? test_byte (λ b. b == 0x0a) payload 4))
    &&? (do
      low ← index payload 0
      middle ← index payload 1
      high ← index payload 2
      let size = low + middle * 256 + high * 65536
      if ltb (length payload) (size + 4) || ltb size 20 then ok false else do
        text ← slice payload 5 (if leb 64 (length payload) then 64 else length payload)
        mysql_version payload (index_byte 0 text))

-- A case of a `switch` that returns a name.
unfoldable pub name_if : String → Res Bool → Res (Option String) → Res (Option String)
name_if name check rest = do hit ← check; if hit then ok (some name) else rest

module _ (payload : Bytes) (port : ℕ → Bool) where
  abbrev size : ℕ
  size = length payload

  -- The cases of `portedTCP`.
  unfoldable pub is_kafka : Res Bool
  is_kafka = ok (port 9092 && leb 12 size) &&? (do
    n ← be32 payload 0
    ok (n == size - 4)
        &&? ((do key ← be16 payload 4; ok (leb key 80))
            &&? (do version ← be16 payload 6; ok (leb version 30))))

  unfoldable pub is_nats : Res Bool
  is_nats =
      ok (
        port 4222
        && (has_prefix payload (codes "INFO {") || has_prefix payload (codes "CONNECT {")))

  unfoldable pub is_zookeeper : Res Bool
  is_zookeeper =
      ok (port 2181)
      &&? ((ok (leb 8 size)
            &&? ((do n ← be32 payload 0; ok (n == size - 4))
                &&? (do version ← be32 payload 4; ok (version == 0))))
          ||? ok (
              one_of
                (codes "ruok"
                  ∷ codes "stat"
                  ∷ codes "srvr"
                  ∷ codes "mntr"
                  ∷ codes "conf"
                  ∷ codes "cons"
                  ∷ codes "envi"
                  ∷ codes "dump"
                  ∷ codes "wchs"
                  ∷ codes "isro"
                  ∷ [])
                payload))

  unfoldable pub is_memcached : Res Bool
  is_memcached =
      ok (port 11211)
      &&? (test_byte (λ b. b == 0x80) payload 0
          ||? (test_byte (λ b. b == 0x81) payload 0 ||? ok (memcached_command payload)))

  unfoldable pub is_sql_server : Res Bool
  is_sql_server =
      ok (port 1433 && leb 8 size)
      &&? (test_byte (λ b. b == 0x12 || (b == 0x10 || b == 0x04)) payload 0
          &&? (do n ← be16 payload 2; ok (n == size)))

  unfoldable pub is_oracle : Res Bool
  is_oracle =
      ok (port 1521 && leb 8 size)
      &&? (test_byte (λ b. leb 1 b && leb b 6) payload 4
          &&? (test_byte (λ b. b == 0) payload 5 &&? (do n ← be16 payload 0; ok (leb n size))))

  unfoldable pub is_ldap : Res Bool
  is_ldap = ok (port 389 || port 3268) &&? ldap_message payload

  unfoldable pub is_kerberos : Res Bool
  is_kerberos =
      ok (port 88 && leb 5 size)
      &&? ((do n ← be32 payload 0; ok (n == size - 4)) &&? test_byte kerberos_tag payload 4)

  unfoldable pub is_cassandra : Res Bool
  is_cassandra =
      ok (port 9042 && leb 9 size)
      &&? (test_byte (λ b. leb 3 (bit_and b 0x7f)) payload 0
          &&? (test_byte (λ b. leb (bit_and b 0x7f) 5) payload 0
              &&? (do n ← be32 payload 5; ok (n == size - 9))))

  -- `portedTCP`
  unfoldable pub ported_tcp : Res (Option String)
  ported_tcp = name_if "Kafka" is_kafka (
      name_if "NATS" is_nats (
        name_if "ZooKeeper" is_zookeeper (
          name_if "Memcached" is_memcached (
            name_if "SQL Server" is_sql_server (
              name_if "Oracle TNS" is_oracle (
                name_if "LDAP" is_ldap (
                  name_if "Kerberos" is_kerberos (name_if "Cassandra" is_cassandra (ok none)))))))))

  -- The conditions of `TCP`, in its order.
  unfoldable pub is_ssh : Res Bool
  is_ssh = ok (has_prefix payload (codes "SSH-2.0-") || has_prefix payload (codes "SSH-1.99-"))

  unfoldable pub is_bittorrent : Res Bool
  is_bittorrent =
      ok (leb 20 size)
      &&? (test_byte (λ b. b == 19) payload 0
          &&? slice_equal payload 1 20 (codes "BitTorrent protocol"))

  unfoldable pub is_mqtt : Res Bool
  is_mqtt =
      ok (leb 8 size)
      &&? (test_byte (λ b. b == 0x10) payload 0
          &&? (test_byte (λ b. ltb b 0x80) payload 1
              &&? slice_equal payload 2 8 (0 ∷ 4 ∷ codes "MQTT")))

  unfoldable pub is_tls : Res Bool
  is_tls =
      ok (leb 5 size)
      &&? (test_byte (λ b. leb 20 b && leb b 23) payload 0
          &&? (test_byte (λ b. b == 3) payload 1
              &&? (test_byte (λ b. leb b 4) payload 2
                  &&? (do n ← be16 payload 3; ok (ltb 0 n && leb n 18432)))))

  unfoldable pub is_http : Res Bool
  is_http = ok (has_prefix payload (codes "HTTP/1.") || http_request payload)

  unfoldable pub is_http2 : Res Bool
  is_http2 = ok (has_prefix payload (codes "PRI * HTTP/2.0\r\n"))

  unfoldable pub is_tcp_dns : Res Bool
  is_tcp_dns = ok (leb 14 size && port 53) &&? (do
    n ← be16 payload 0
    ok (leb 12 n && leb n (size - 2))
        &&? (do message ← slice payload 2 (2 + n); dns_message message))

  unfoldable pub is_tcp_open_vpn : Res Bool
  is_tcp_open_vpn = ok (port 1194 && leb 11 size) &&? (do
    n ← be16 payload 0
    ok (leb 9 n && leb n (size - 2)) &&? test_byte open_vpn_reset payload 2)

  unfoldable pub is_ftp : Res Bool
  is_ftp = ok (
      port 21
      && (has_prefix payload (codes "220 ")
          || (has_prefix payload (codes "USER ") || has_prefix payload (codes "PASS "))))

  unfoldable pub is_smtp : Res Bool
  is_smtp = ok (
      (port 25 || port 587)
      && (has_prefix payload (codes "220 ")
          || (has_prefix payload (codes "EHLO ") || has_prefix payload (codes "HELO "))))

  unfoldable pub is_redis : Res Bool
  is_redis =
      ok (port 6379 && leb 4 size && contains (take 64 payload) (codes "\r\n"))
      &&? test_byte (λ b. is_some (index_byte b (codes "+-:$*"))) payload 0

  unfoldable pub is_postgresql : Res Bool
  is_postgresql =
      ok (port 5432 && leb 8 size)
      &&? ((do n ← be32 payload 0; ok (n == size))
          &&? (do version ← be32 payload 4; ok (version == 196608)))

  unfoldable pub is_smb : Res Bool
  is_smb =
      ok (leb 8 size)
      &&? (test_byte (λ b. b == 0) payload 0
          &&? (slice_equal payload 4 8 (0xff ∷ codes "SMB")
              ||? slice_equal payload 4 8 (0xfe ∷ codes "SMB")))

  unfoldable pub is_rdp : Res Bool
  is_rdp =
      ok (port 3389 && leb 11 size)
      &&? (test_byte (λ b. b == 3) payload 0
          &&? (test_byte (λ b. b == 0) payload 1
              &&? test_byte (λ b. bit_and b 0xf0 == 0xe0) payload 5))

  unfoldable pub is_vnc : Res Bool
  is_vnc = ok (has_prefix payload (codes "RFB 00"))

  unfoldable pub is_telnet : Res Bool
  is_telnet =
      ok (port 23 && leb 3 size)
      &&? (test_byte (λ b. b == 0xff) payload 0 &&? test_byte (λ b. leb 0xfb b) payload 1)

  unfoldable pub is_mongodb : Res Bool
  is_mongodb =
      ok (port 27017 && leb 16 size)
      &&? ((do n ← le32 payload 0; ok (n == size))
          &&? (do op ← le32 payload 12; ok (mongo_op_code op)))

  unfoldable pub is_amqp : Res Bool
  is_amqp =
      ok (leb 8 size && has_prefix payload (codes "AMQP")) &&? test_byte (λ b. leb b 3) payload 4

  -- `TCP` on a payload that is not empty.
  unfoldable pub tcp_checks : Res (Option Detection)
  tcp_checks = detect "SSH" "payload" is_ssh (
      detect "BitTorrent" "payload" is_bittorrent (
        detect "MQTT" "payload" is_mqtt (
          detect "TLS" "record-prefix" is_tls (
            detect "HTTP" "payload" is_http (
              detect "HTTP/2" "payload" is_http2 (
                detect "DNS" "payload+port" is_tcp_dns (
                  detect "OpenVPN" "reset+port" is_tcp_open_vpn (
                    detect "FTP" "payload+port" is_ftp (
                      detect "SMTP" "payload+port" is_smtp (
                        detect "Redis" "payload+port" is_redis (
                          detect "PostgreSQL" "payload+port" is_postgresql (
                            detect "SMB" "payload" is_smb (
                              detect "RDP" "payload+port" is_rdp (
                                detect "MySQL" "payload" (mysql_greeting payload) (
                                  detect "VNC" "payload" is_vnc (
                                    detect "Telnet" "payload+port" is_telnet (
                                      detect "MongoDB" "payload+port" is_mongodb (
                                        detect "AMQP" "payload" is_amqp (
                                          detect_name "payload" (rpc_call payload true) (
                                            detect_name "payload+port" ported_tcp (
                                              detect_name "payload" (text_protocol payload)
                                                (ok none))))))))))))))))))))))

  unfoldable pub tcp_by : Res (Option Detection)
  tcp_by = if size == 0 then ok none else tcp_checks

-- `TCP`
unfoldable pub tcp : Bytes → ℕ → ℕ → Res (Option Detection)
tcp payload source destination = tcp_by payload (either_port source destination)
