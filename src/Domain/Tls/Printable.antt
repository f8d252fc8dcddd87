-- ===== src/Domain/Tls/Printable.antt =====
-- internal/domain/tls.go, parseClientHello: the bounds of reading it, and the names that it yields.
use socktrail.Base.{
  ℕ, zero, suc, ◌+◌, ◌-◌, ◌%◌, ◌≤◌, ◌<◌, ◌≡◌, ◌∙◌, Bool, false, not, ◌||◌, List, [], ◌∷◌, Bytes,
  length, get_or, All, All-append, leb, ◌==◌, arith, Ensures, Ensures-bind, index_ok, slice_ok,
  slice_from_ok, be16_ok, Bool-cases, inl, inr,
}
use socktrail.Domain.Hostname.{
  IsPrintable, valid_hostname-IsPrintable, printable-IsPrintable, normalize_name-IsPrintable,
}
use socktrail.Domain.Cursor.{
  Cursor, take_bytes, take_uint8, take_uint16, relabel, Moved, take_bytes-Moved, take_uint8-Moved,
  take_uint16-Moved, Ensures-relabel,
}
use socktrail.Domain.Tls.Hello.{
  HelloFields, sni_name, sni_entry, sni_loop, parse_sni, alpn_entry, alpn_loop, parse_alpn,
  signatures_of, first_alpn, versions_of, extension, seen_extension, extension_entry,
  extension_loop, hello_extensions, hello_ciphers, parse_client_hello,
}

-- The name and the protocols hold nothing but printable characters.
pub record PrintableHello (hello : HelloFields) : Type 0 where
  pub sni_printable : All IsPrintable hello.sni
  pub alpn_printable : All (All IsPrintable) hello.alpn

-- A round that moved the cursor on within the same bytes.
record Forward (c c' : Cursor) : Type 0 where
  same : c'.bytes ≡ c.bytes
  forward : c.off < c'.off
  within : c'.off ≤ length c'.bytes

sni_name-IsPrintable :
    (kind : ℕ) (name hostname : Bytes) (has : Bool)
    → All IsPrintable hostname
    → Ensures (λ r. All IsPrintable r.0) (sni_name kind name hostname has)
unfolding sni_name
sni_name-IsPrintable kind name hostname has h =
    ground (arith, valid_hostname-IsPrintable name, normalize_name-IsPrintable name)

sni_entry-Forward :
    (c : Cursor) (hostname : Bytes) (has : Bool)
    → All IsPrintable hostname
    → Ensures (λ r. Forward c r.0 × All IsPrintable r.1) (sni_entry c hostname has)
unfolding sni_entry
sni_entry-Forward c hostname has h =
    Ensures-bind _ _ (take_uint8 c) _ (take_uint8-Moved c) (λ (kind, c1) m1.
      Ensures-bind _ _ (take_uint16 c1) _ (take_uint16-Moved c1) (λ (size, c2) m2.
        Ensures-bind _ _ (take_bytes size c2) _ (take_bytes-Moved size c2) (λ (name, c3) m3.
          Ensures-bind _ _ (sni_name kind name hostname has) _
            (sni_name-IsPrintable kind name hostname has h)
            (λ (hostname', has') h'. (
              record {
                same = m3.1.same_bytes ∙ m2.same_bytes ∙ m1.same_bytes;
                forward = ground (arith, m1, m2, m3);
                within = m3.1.inside;
              },
              h',
            )))))

sni_loop-IsPrintable :
    (rounds : ℕ) (c : Cursor) (hostname : Bytes) (has : Bool)
    → c.off ≤ length c.bytes
    → length c.bytes - c.off < rounds
    → All IsPrintable hostname
    → Ensures (All IsPrintable) (sni_loop rounds c hostname has)
unfolding sni_loop
sni_loop-IsPrintable zero c hostname has inside h k = absurd (omega arith)
sni_loop-IsPrintable (suc rounds) c hostname has inside h k =
    elim (Bool-cases (leb (length c.bytes) c.off)) [
      | inl y ↦ rw y k
      | inr n ↦ rw n (
          Ensures-bind _ _ (sni_entry c hostname has) _ (sni_entry-Forward c hostname has k)
            (λ (c', hostname', has') (f, k').
              sni_loop-IsPrintable rounds c' hostname' has' f.within
                (ground (arith, f.same, f.forward, f.within)) k'))
    ]

parse_sni-IsPrintable : (body : Bytes) → Ensures (All IsPrintable) (parse_sni body)
unfolding parse_sni
parse_sni-IsPrintable body =
    Ensures-bind (λ r. Moved 2 (record { bytes = body; off = 0 }) r.1) _
      (relabel "invalid SNI list length" (take_uint16 (record { bytes = body; off = 0 }))) _
      (Ensures-relabel (λ r. Moved 2 (record { bytes = body; off = 0 }) r.1)
        "invalid SNI list length" (take_uint16 (record { bytes = body; off = 0 }))
        (take_uint16-Moved (record { bytes = body; off = 0 })))
      (λ (size, c) m. ground (
        arith,
        m.same_bytes,
        m.moved,
        m.inside,
        sni_loop-IsPrintable (suc (length body)) c [] false,
      ))

alpn_entry-Forward :
    (c : Cursor) (protocols : List Bytes)
    → All (All IsPrintable) protocols
    → Ensures (λ r. Forward c r.0 × All (All IsPrintable) r.1) (alpn_entry c protocols)
unfolding alpn_entry
alpn_entry-Forward c protocols h =
    Ensures-bind (λ r. Moved 1 c r.1) _ (relabel "invalid ALPN protocol length" (take_uint8 c)) _
      (Ensures-relabel (λ r. Moved 1 c r.1) "invalid ALPN protocol length" (take_uint8 c)
        (take_uint8-Moved c))
      (λ (n, c1) m1. elim (Bool-cases (n == 0)) [
        | inl y ↦ rw y tt
        | inr no_zero ↦ rw no_zero (
            Ensures-bind _ _ (take_bytes n c1) _ (take_bytes-Moved n c1) (λ (protocol, c2) m2. (
              record {
                same = m2.1.same_bytes ∙ m1.same_bytes;
                forward = ground (arith, m1, m2);
                within = m2.1.inside;
              },
              ground (
                arith,
                printable-IsPrintable protocol,
                All-append (All IsPrintable) protocols (protocol ∷ []) h,
              ),
            )))
      ])

alpn_loop-IsPrintable :
    (rounds : ℕ) (c : Cursor) (protocols : List Bytes)
    → c.off ≤ length c.bytes
    → length c.bytes - c.off < rounds
    → All (All IsPrintable) protocols
    → Ensures (All (All IsPrintable)) (alpn_loop rounds c protocols)
unfolding alpn_loop
alpn_loop-IsPrintable zero c protocols inside h k = absurd (omega arith)
alpn_loop-IsPrintable (suc rounds) c protocols inside h k =
    elim (Bool-cases (leb (length c.bytes) c.off)) [
      | inl y ↦ rw y k
      | inr n ↦ rw n (
          Ensures-bind _ _ (alpn_entry c protocols) _ (alpn_entry-Forward c protocols k)
            (λ (c', protocols') (f, k').
              alpn_loop-IsPrintable rounds c' protocols' f.within
                (ground (arith, f.same, f.forward, f.within)) k'))
    ]

pub parse_alpn-IsPrintable : (body : Bytes) → Ensures (All (All IsPrintable)) (parse_alpn body)
unfolding parse_alpn
parse_alpn-IsPrintable body =
    Ensures-bind (λ r. Moved 2 (record { bytes = body; off = 0 }) r.1) _
      (relabel "invalid ALPN list length" (take_uint16 (record { bytes = body; off = 0 }))) _
      (Ensures-relabel (λ r. Moved 2 (record { bytes = body; off = 0 }) r.1)
        "invalid ALPN list length" (take_uint16 (record { bytes = body; off = 0 }))
        (take_uint16-Moved (record { bytes = body; off = 0 })))
      (λ (size, c) m.
        ground
          (arith, m.same_bytes, m.moved, m.inside, alpn_loop-IsPrintable (suc (length body)) c []))

abbrev Any {ℓ} : {A : Type ℓ} → A → Type 0
Any a = Unit {0}

signatures_of-Any : (body : Bytes) (old : List ℕ) → Ensures Any (signatures_of body old)
unfolding signatures_of
signatures_of-Any body old = ground (arith, be16_ok body 0, slice_from_ok body 2)

first_alpn-Any : (body old : Bytes) → Ensures Any (first_alpn body old)
unfolding first_alpn
first_alpn-Any body old = ground (arith, index_ok body 2, slice_ok body 3 (3 + get_or body 2 0))

versions_of-Any : (body : Bytes) (old : List ℕ) → Ensures Any (versions_of body old)
unfolding versions_of
versions_of-Any body old = ground (arith, index_ok body 0, slice_from_ok body 1)

extension-PrintableHello :
    (kind : ℕ) (body : Bytes) (has : Bool) (hello : HelloFields)
    → PrintableHello hello
    → Ensures (λ r. PrintableHello r.1) (extension kind body has hello)
unfolding extension
extension-PrintableHello kind body has hello h = ground (
  arith,
  h.sni_printable,
  h.alpn_printable,
  parse_sni-IsPrintable body,
  parse_alpn-IsPrintable body,
  signatures_of-Any body hello.ja4.signatures,
  first_alpn-Any body hello.ja4.alpn,
  versions_of-Any body hello.ja4.versions,
)

extension_entry-Forward :
    (c : Cursor) (has : Bool) (hello : HelloFields)
    → PrintableHello hello
    → Ensures (λ r. Forward c r.0 × PrintableHello r.2) (extension_entry c has hello)
unfolding extension_entry seen_extension
extension_entry-Forward c has hello h =
    Ensures-bind _ _ (take_uint16 c) _ (take_uint16-Moved c) (λ (kind, c1) m1.
      Ensures-bind _ _ (take_uint16 c1) _ (take_uint16-Moved c1) (λ (size, c2) m2.
        Ensures-bind _ _ (take_bytes size c2) _ (take_bytes-Moved size c2) (λ (body, c3) m3.
          Ensures-bind _ _ (extension kind body has (seen_extension kind hello)) _
            (extension-PrintableHello kind body has (seen_extension kind hello)
              (record { sni_printable = h.sni_printable; alpn_printable = h.alpn_printable }))
            (λ (has', hello') h'. (
              record {
                same = m3.1.same_bytes ∙ m2.same_bytes ∙ m1.same_bytes;
                forward = ground (arith, m1, m2, m3);
                within = m3.1.inside;
              },
              h',
            )))))

extension_loop-PrintableHello :
    (rounds : ℕ) (c : Cursor) (has : Bool) (hello : HelloFields)
    → c.off ≤ length c.bytes
    → length c.bytes - c.off < rounds
    → PrintableHello hello
    → Ensures PrintableHello (extension_loop rounds c has hello)
unfolding extension_loop
extension_loop-PrintableHello zero c has hello inside h k = absurd (omega arith)
extension_loop-PrintableHello (suc rounds) c has hello inside h k =
    elim (Bool-cases (leb (length c.bytes) c.off)) [
      | inl y ↦ rw y k
      | inr n ↦ rw n (
          Ensures-bind _ _ (extension_entry c has hello) _ (extension_entry-Forward c has hello k)
            (λ (c', has', hello') (f, k').
              extension_loop-PrintableHello rounds c' has' hello' f.within
                (ground (arith, f.same, f.forward, f.within)) k'))
    ]

hello_extensions-PrintableHello :
    (c : Cursor) (hello : HelloFields)
    → PrintableHello hello
    → Ensures PrintableHello (hello_extensions c hello)
unfolding hello_extensions
hello_extensions-PrintableHello c hello h = elim (Bool-cases (c.off == length c.bytes)) [
  | inl y ↦ rw y h
  | inr n ↦ rw n (
      Ensures-bind (λ r. Moved 2 c r.1) PrintableHello (take_uint16 c) _ (take_uint16-Moved c)
        (λ (size, c1) m1.
          Ensures-bind (λ r. (length r.0 ≡ size) × Moved size c1 r.1) PrintableHello
            (relabel "invalid TLS extensions length" (take_bytes size c1)) _
            (Ensures-relabel (λ r. (length r.0 ≡ size) × Moved size c1 r.1)
              "invalid TLS extensions length" (take_bytes size c1) (take_bytes-Moved size c1))
            (λ (extensions, c2) m2. ground (
              arith,
              extension_loop-PrintableHello (suc (length extensions))
                  (record { bytes = extensions; off = 0 }) false hello,
            ))))
]

-- From the cipher suites on.
hello_ciphers-PrintableHello :
    (cipher_len : ℕ) (c5 : Cursor) (version : ℕ)
    → Ensures PrintableHello (hello_ciphers cipher_len c5 version)
unfolding hello_ciphers
hello_ciphers-PrintableHello cipher_len c5 version =
    elim (Bool-cases (cipher_len == 0 || not (cipher_len % 2 == 0))) [
      | inl y ↦ rw y tt
      | inr n ↦ rw n (
          Ensures-bind _ _ (take_bytes cipher_len c5) _ (take_bytes-Moved cipher_len c5)
            (λ (ciphers, c6) m6.
              Ensures-bind _ _ (take_uint8 c6) _ (take_uint8-Moved c6) (λ (compression_len, c7) m7.
                Ensures-bind _ _ (take_bytes compression_len c7) _
                  (take_bytes-Moved compression_len c7)
                  (λ (compression, c8) m8.
                    hello_extensions-PrintableHello c8 _
                      (record { sni_printable = tt; alpn_printable = tt })))))
    ]

-- On every byte sequence, parsing a ClientHello returns without a panic and without running out of
-- rounds, and a server name or a protocol that it returns has printable characters only.
pub parse_client_hello-PrintableHello :
    (message : Bytes) → Ensures PrintableHello (parse_client_hello message)
unfolding parse_client_hello
parse_client_hello-PrintableHello message =
    Ensures-bind _ _ (take_uint16 (record { bytes = message; off = 0 })) _ (take_uint16-Moved _)
      (λ (version, c1) m1.
        Ensures-bind _ _ (take_bytes 32 c1) _ (take_bytes-Moved 32 c1) (λ (random, c2) m2.
          Ensures-bind _ _ (take_uint8 c2) _ (take_uint8-Moved c2) (λ (session_len, c3) m3.
            Ensures-bind _ _ (take_bytes session_len c3) _ (take_bytes-Moved session_len c3)
              (λ (session, c4) m4.
                Ensures-bind _ _ (take_uint16 c4) _ (take_uint16-Moved c4)
                  (λ (cipher_len, c5) m5. hello_ciphers-PrintableHello cipher_len c5 version)))))
