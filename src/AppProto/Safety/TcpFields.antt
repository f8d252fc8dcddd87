-- ===== src/AppProto/Safety/TcpFields.antt =====
-- internal/appproto/detect.go: the bounds of portedTCP, ldapMessage and mysqlGreeting.
use socktrail.Base.{
  ℕ, ◌+◌, ◌-◌, ◌≤◌, ◌<◌, ◌≡◌, refl, Bool, String, Option, none, some, Bytes, length, take, drop, at,
  arith, Res, ◌==◌, if◌then◌else◌, bit_and, Runs, index_ok, slice_ok, be16_ok, be32_ok, index_byte,
  index_byte-lt, length-take, length-drop,
}
use socktrail.AppProto.Tcp.{
  ldap_id, ldap_message, mysql_version, mysql_greeting, name_if, ported_tcp, is_kafka, is_nats,
  is_zookeeper, is_memcached, is_sql_server, is_oracle, is_ldap, is_kerberos, is_cassandra,
}

ldap_id-Runs : (payload : Bytes) (offset : ℕ) → Runs (ldap_id payload offset)
unfolding ldap_id
ldap_id-Runs payload offset = ground (
  arith,
  index_ok payload offset,
  index_ok payload (offset + 1),
  index_ok payload (offset + 2 + at payload (offset + 1)),
)

ldap_message-Runs : (payload : Bytes) → Runs (ldap_message payload)
unfolding ldap_message
ldap_message-Runs payload = ground (
  arith,
  index_ok payload 0,
  index_ok payload 1,
  ldap_id-Runs payload
      (if bit_and (at payload 1) 0x80 == 0 then 2 else 2 + bit_and (at payload 1) 0x7f),
)

mysql_version-Runs :
    (payload : Bytes) (end : Option ℕ)
    → 16 ≤ length payload
    → ((n : ℕ) → end ≡ some n → 5 + n ≤ length payload)
    → Runs (mysql_version payload end)
unfolding mysql_version
mysql_version-Runs payload none h k = tt
mysql_version-Runs payload (some n) h k =
    ground (arith, k n refl, slice_ok payload 5 (5 + n), index_ok payload 5)

mysql_text-Runs :
    (payload : Bytes) (end : ℕ)
    → 16 ≤ length payload
    → 5 ≤ end
    → end ≤ length payload
    → Runs (mysql_version payload (index_byte 0 (take (end - 5) (drop 5 payload))))
mysql_text-Runs payload end h k l =
    let text = take (end - 5) (drop 5 payload) in
    mysql_version-Runs payload (index_byte 0 text) h (λ n e. omega (
      arith,
      index_byte-lt 0 text n e,
      length-take (end - 5) (drop 5 payload),
      length-drop 5 payload,
    ))

pub mysql_greeting-Runs : (payload : Bytes) → Runs (mysql_greeting payload)
unfolding mysql_greeting
mysql_greeting-Runs payload = ground (
  arith,
  index_ok payload 0,
  index_ok payload 1,
  index_ok payload 2,
  index_ok payload 3,
  index_ok payload 4,
  slice_ok payload 5 64,
  slice_ok payload 5 (length payload),
  mysql_text-Runs payload 64,
  mysql_text-Runs payload (length payload),
)

name_if-Runs :
    (name : String) (check : Res Bool) (rest : Res (Option String))
    → Runs check
    → Runs rest
    → Runs (name_if name check rest)
unfolding name_if
name_if-Runs name check rest h k = ground (arith, h, k)

module _ (payload : Bytes) (port : ℕ → Bool) where
  is_kafka-Runs : Runs (is_kafka payload port)
  unfolding is_kafka
  is_kafka-Runs = ground (arith, be32_ok payload 0, be16_ok payload 4, be16_ok payload 6)

  is_nats-Runs : Runs (is_nats payload port)
  unfolding is_nats
  is_nats-Runs = ground (arith)

  is_zookeeper-Runs : Runs (is_zookeeper payload port)
  unfolding is_zookeeper
  is_zookeeper-Runs = ground (arith, be32_ok payload 0, be32_ok payload 4)

  is_memcached-Runs : 0 < length payload → Runs (is_memcached payload port)
  unfolding is_memcached
  is_memcached-Runs h = ground (arith, index_ok payload 0)

  is_sql_server-Runs : Runs (is_sql_server payload port)
  unfolding is_sql_server
  is_sql_server-Runs = ground (arith, index_ok payload 0, be16_ok payload 2)

  is_oracle-Runs : Runs (is_oracle payload port)
  unfolding is_oracle
  is_oracle-Runs = ground (arith, index_ok payload 4, index_ok payload 5, be16_ok payload 0)

  is_ldap-Runs : Runs (is_ldap payload port)
  unfolding is_ldap
  is_ldap-Runs = ground (arith, ldap_message-Runs payload)

  is_kerberos-Runs : Runs (is_kerberos payload port)
  unfolding is_kerberos
  is_kerberos-Runs = ground (arith, index_ok payload 4, be32_ok payload 0)

  is_cassandra-Runs : Runs (is_cassandra payload port)
  unfolding is_cassandra
  is_cassandra-Runs = ground (arith, index_ok payload 0, be32_ok payload 5)

  pub ported_tcp-Runs : 0 < length payload → Runs (ported_tcp payload port)
  unfolding ported_tcp
  ported_tcp-Runs h = name_if-Runs _ _ _ is_kafka-Runs (
      name_if-Runs _ _ _ is_nats-Runs (
        name_if-Runs _ _ _ is_zookeeper-Runs (
          name_if-Runs _ _ _ (is_memcached-Runs h) (
            name_if-Runs _ _ _ is_sql_server-Runs (
              name_if-Runs _ _ _ is_oracle-Runs (
                name_if-Runs _ _ _ is_ldap-Runs (
                  name_if-Runs _ _ _ is_kerberos-Runs
                    (name_if-Runs _ _ _ is_cassandra-Runs tt))))))))
