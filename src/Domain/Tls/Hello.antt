-- ===== src/Domain/Tls/Hello.antt =====
-- internal/domain/tls.go, parseClientHello, parseSNI and parseALPN. Each round of a loop takes a byte
-- at least, so it is given one round more than there are bytes; running out is a panic here.
use socktrail.Base.{
  ℕ, zero, suc, ◌+◌, ◌-◌, ◌*◌, ◌%◌, Bool, true, false, not, ◌&&◌, ◌||◌, List, [], ◌∷◌, ◌++◌, Bytes,
  length, ltb, leb, ◌==◌, if◌then◌else◌, Res, ok, err, panic, ◌>>=◌, index, slice, slice_from, be16,
}
use socktrail.Domain.Hostname.{valid_hostname, normalize_name, printable}
use socktrail.Domain.Cursor.{Cursor, take_bytes, take_uint8, take_uint16, relabel}

pub record Ja4Fields : Type 0 where
  pub version : ℕ
  pub versions : List ℕ
  pub ciphers : List ℕ
  pub extensions : List ℕ
  pub signatures : List ℕ
  pub alpn : Bytes

pub record HelloFields : Type 0 where
  pub sni : Bytes
  pub ech : Bool
  pub alpn : List Bytes
  pub ja4 : Ja4Fields

abbrev pub empty_hello : HelloFields
empty_hello = record {
  sni = [];
  ech = false;
  alpn = [];
  ja4 = record {
    version = 0;
    versions = [];
    ciphers = [];
    extensions = [];
    signatures = [];
    alpn = [];
  };
}

-- `uint16List`
unfoldable pub uint16_list : Bytes → List ℕ
uint16_list [] = []
uint16_list (b ∷ []) = []
uint16_list (b ∷ c ∷ rest) = (b * 256 + c) ∷ uint16_list rest

-- What an entry of the SNI list does to the hostname, and to whether there was one.
unfoldable pub sni_name : ℕ → Bytes → Bytes → Bool → Res (Bytes × Bool)
sni_name kind name hostname has_hostname =
    if not (kind == 0)
    then ok (hostname, has_hostname)
    else if has_hostname
    then err "duplicate SNI hostname"
    else if not (valid_hostname name)
    then err "invalid SNI hostname"
    else ok (normalize_name name, true)

unfoldable pub sni_entry : Cursor → Bytes → Bool → Res (Cursor × Bytes × Bool)
sni_entry c hostname has_hostname = do
  (kind, c1) ← take_uint8 c
  (size, c2) ← take_uint16 c1
  (name, c3) ← take_bytes size c2
  (hostname', has') ← sni_name kind name hostname has_hostname
  ok (c3, hostname', has')

unfoldable pub sni_loop : ℕ → Cursor → Bytes → Bool → Res Bytes
sni_loop zero c hostname has_hostname = panic
sni_loop (suc rounds) c hostname has_hostname =
    if leb (length c.bytes) c.off then ok hostname else do
      (c', hostname', has') ← sni_entry c hostname has_hostname
      sni_loop rounds c' hostname' has'

-- `parseSNI`
unfoldable pub parse_sni : Bytes → Res Bytes
parse_sni body = do
  (list_len, c) ← relabel "invalid SNI list length" (take_uint16 (record { bytes = body; off = 0 }))
  if not (list_len == length body - 2)
      then err "invalid SNI list length"
      else if list_len == 0
      then err "empty SNI list"
      else sni_loop (suc (length body)) c [] false

unfoldable pub alpn_entry : Cursor → List Bytes → Res (Cursor × List Bytes)
alpn_entry c protocols = do
  (n, c1) ← relabel "invalid ALPN protocol length" (take_uint8 c)
  if n == 0 then err "invalid ALPN protocol length" else do
    (protocol, c2) ← take_bytes n c1
    ok (c2, if printable protocol then protocols ++ (protocol ∷ []) else protocols)

unfoldable pub alpn_loop : ℕ → Cursor → List Bytes → Res (List Bytes)
alpn_loop zero c protocols = panic
alpn_loop (suc rounds) c protocols =
    if leb (length c.bytes) c.off
    then ok protocols
    else do (c', protocols') ← alpn_entry c protocols; alpn_loop rounds c' protocols'

-- `parseALPN`
unfoldable pub parse_alpn : Bytes → Res (List Bytes)
parse_alpn body = do
  (size, c) ← relabel "invalid ALPN list length" (take_uint16 (record { bytes = body; off = 0 }))
  if not (size == length body - 2)
      then err "invalid ALPN list length"
      else alpn_loop (suc (length body)) c []

-- The lists that a fingerprint is made of, from the extensions that hold them.
unfoldable pub signatures_of : Bytes → List ℕ → Res (List ℕ)
signatures_of body old = if ltb (length body) 2 then ok old else do
  size ← be16 body 0
  if size == length body - 2 && length body % 2 == 0
      then (do rest ← slice_from body 2; ok (uint16_list rest))
      else ok old

unfoldable pub first_alpn : Bytes → Bytes → Res Bytes
first_alpn body old = if leb (length body) 3 then ok old else do
  n ← index body 2
  if ltb 0 n && leb (3 + n) (length body) then slice body 3 (3 + n) else ok old

unfoldable pub versions_of : Bytes → List ℕ → Res (List ℕ)
versions_of body old = if ltb (length body) 1 then ok old else do
  size ← index body 0
  if size == length body - 1 && length body % 2 == 1
      then (do rest ← slice_from body 1; ok (uint16_list rest))
      else ok old

-- The `switch` on an extension, with whether there was an SNI extension already.
unfoldable pub extension : ℕ → Bytes → Bool → HelloFields → Res (Bool × HelloFields)
extension kind body has_sni hello =
    if kind == 0
    then if has_sni
      then err "duplicate SNI extension"
      else (do name ← parse_sni body; ok (true, record hello { sni = name }))
    else if kind == 13
    then (do
      list ← signatures_of body hello.ja4.signatures
      let ja4 = record hello.ja4 { signatures = list }
      ok (has_sni, record hello { ja4 = ja4 }))
    else if kind == 16
    then (do
      protocols ← parse_alpn body
      first ← first_alpn body hello.ja4.alpn
      let ja4 = record hello.ja4 { alpn = first }
      ok (has_sni, record hello { alpn = protocols; ja4 = ja4 }))
    else if kind == 43
    then (do
      list ← versions_of body hello.ja4.versions
      let ja4 = record hello.ja4 { versions = list }
      ok (has_sni, record hello { ja4 = ja4 }))
    else if kind == 0xfe0d
    then ok (has_sni, record hello { ech = true })
    else ok (has_sni, hello)

unfoldable pub seen_extension : ℕ → HelloFields → HelloFields
seen_extension kind hello = record hello {
  ja4 = record hello.ja4 { extensions = hello.ja4.extensions ++ (kind ∷ []) };
}

unfoldable pub extension_entry : Cursor → Bool → HelloFields → Res (Cursor × Bool × HelloFields)
unfolding seen_extension
extension_entry c has_sni hello = do
  (kind, c1) ← take_uint16 c
  (size, c2) ← take_uint16 c1
  (body, c3) ← take_bytes size c2
  (has', hello') ← extension kind body has_sni (seen_extension kind hello)
  ok (c3, has', hello')

unfoldable pub extension_loop : ℕ → Cursor → Bool → HelloFields → Res HelloFields
extension_loop zero c has_sni hello = panic
extension_loop (suc rounds) c has_sni hello = if leb (length c.bytes) c.off then ok hello else do
  (c', has', hello') ← extension_entry c has_sni hello
  extension_loop rounds c' has' hello'

-- What follows the compression methods.
unfoldable pub hello_extensions : Cursor → HelloFields → Res HelloFields
hello_extensions c hello = if c.off == length c.bytes then ok hello else do
  (size, c1) ← take_uint16 c
  (extensions, c2) ← relabel "invalid TLS extensions length" (take_bytes size c1)
  if not (c2.off == length c2.bytes)
      then err "invalid TLS extensions length"
      else extension_loop (suc (length extensions)) (record { bytes = extensions; off = 0 }) false
          hello

-- From the cipher suites on.
unfoldable pub hello_ciphers : ℕ → Cursor → ℕ → Res HelloFields
hello_ciphers cipher_len c5 version =
    if cipher_len == 0 || not (cipher_len % 2 == 0) then err "invalid TLS cipher suite list" else do
      (ciphers, c6) ← take_bytes cipher_len c5
      (compression_len, c7) ← take_uint8 c6
      (compression, c8) ← take_bytes compression_len c7
      let ja4 = record empty_hello.ja4 { version = version; ciphers = uint16_list ciphers }
      hello_extensions c8 (record empty_hello { ja4 = ja4 })

-- `parseClientHello`
unfoldable pub parse_client_hello : Bytes → Res HelloFields
parse_client_hello message = do
  (version, c1) ← take_uint16 (record { bytes = message; off = 0 })
  (random, c2) ← take_bytes 32 c1
  (session_len, c3) ← take_uint8 c2
  (session, c4) ← take_bytes session_len c3
  (cipher_len, c5) ← take_uint16 c4
  hello_ciphers cipher_len c5 version
