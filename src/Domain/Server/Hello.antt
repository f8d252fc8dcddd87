-- ===== src/Domain/Server/Hello.antt =====
-- internal/domain/tls_server.go, parseServerHello and tlsVersionName. Texts are their bytes.
use socktrail.Base.{
  ℕ, zero, suc, ◌+◌, ◌-◌, not, ◌&&◌, List, [], ◌∷◌, ◌++◌, Bytes, length, leb, ◌==◌, if◌then◌else◌,
  Res, ok, err, panic, ◌>>=◌, be16, codes,
}
use socktrail.Domain.Cursor.{Cursor, take_bytes, take_uint8, take_uint16, relabel}
use socktrail.Domain.Tls.Hello.{parse_alpn}
use socktrail.Domain.Ja4.Fingerprint.{hex4}

-- The version and the protocol that the server chose.
pub record Chosen : Type 0 where
  pub version : ℕ
  pub alpn : Bytes

-- The protocol, where the list has just one.
unfoldable pub single : List Bytes → Bytes → Bytes
single [] alpn = alpn
single (p ∷ []) alpn = p
single (p ∷ q ∷ ps) alpn = alpn

-- What an extension changes.
unfoldable pub server_extension : ℕ → Bytes → Chosen → Res Chosen
unfolding single
server_extension kind body chosen =
    if kind == 43
    then (if not (length body == 2)
        then err "invalid TLS supported_versions"
        else do version ← be16 body 0; ok (record chosen { version = version }))
    else if kind == 16
    then (do
      protocols ← parse_alpn body
      ok (record chosen { alpn = single protocols chosen.alpn }))
    else ok chosen

unfoldable pub server_entry : Cursor → Chosen → Res (Cursor × Chosen)
unfolding server_extension
server_entry c chosen = do
  (kind, c1) ← take_uint16 c
  (size, c2) ← take_uint16 c1
  (body, c3) ← take_bytes size c2
  chosen' ← server_extension kind body chosen
  ok (c3, chosen')

-- The loop over the extensions; every turn takes at least four bytes.
unfoldable pub server_extensions : ℕ → Cursor → Chosen → Res Chosen
unfolding server_entry
server_extensions zero c chosen = panic
server_extensions (suc turns) c chosen =
    if leb (length c.bytes) c.off
    then ok chosen
    else do (c', chosen') ← server_entry c chosen; server_extensions turns c' chosen'

-- The rest behind the compression method.
unfoldable pub server_tail : ℕ → Cursor → Res Chosen
unfolding server_extensions
server_tail legacy c =
    if c.off == length c.bytes then ok (record { version = legacy; alpn = [] }) else do
      (size, c1) ← take_uint16 c
      (extensions, c2) ← relabel "invalid TLS extensions length" (take_bytes size c1)
      if not (c2.off == length c2.bytes)
          then err "invalid TLS extensions length"
          else server_extensions (suc (length extensions)) (record { bytes = extensions; off = 0 })
              (record { version = legacy; alpn = [] })

-- `parseServerHello`
unfoldable pub parse_server_hello : Bytes → Res Chosen
unfolding server_tail
parse_server_hello b = do
  (legacy, c1) ← take_uint16 (record { bytes = b; off = 0 })
  (random, c2) ← take_bytes 32 c1
  (session, c3) ← take_uint8 c2
  (chosen, c4) ← take_bytes (session + 3) c3
  server_tail legacy c4

-- `tlsVersionName`
unfoldable pub tls_version_name : ℕ → Bytes
tls_version_name version =
    if version == 0x0300
    then codes "SSL 3.0"
    else if leb 0x0301 version && leb version 0x0304
    then codes "TLS 1." ++ ((48 + (version - 0x0301)) ∷ [])
    else codes "TLS version 0x" ++ hex4 version
