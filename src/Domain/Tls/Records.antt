-- ===== src/Domain/Tls/Records.antt =====
-- internal/domain/tls.go, tlsParser.feed: the TLS records that a ClientHello comes in. After an error
-- the stream gives the parser up, so only the error is kept. A record takes six bytes at least;
-- running out of rounds is a panic here.
use socktrail.Base.{
  ℕ, zero, suc, ◌+◌, ◌*◌, Bool, true, not, ◌||◌, List, [], ◌++◌, Option, none, some, Bytes, length,
  ltb, ◌==◌, if◌then◌else◌, Res, ok, err, panic, ◌>>=◌, index, slice, slice_from, be16, be24,
}
use socktrail.Domain.Tls.Hello.{HelloFields, parse_client_hello}
use socktrail.Domain.Ja4.Fingerprint.{fingerprint}

abbrev pub max_client_hello : ℕ
max_client_hello = 65536

-- The fields of `Evidence` that a ClientHello sets.
pub record Evidence : Type 0 where
  pub sni : Bytes
  pub no_sni : Bool
  pub ech : Bool
  pub alpn : List Bytes
  pub ja4 : Option Bytes

pub record TlsParser : Type 0 where
  pub record_bytes : Bytes
  pub handshake : Bytes
  pub done : Bool
  pub evidence : Evidence

-- The first record that is complete, and what follows it.
unfoldable pub next_record : Bytes → Res (Option (Bytes × Bytes))
next_record b = if ltb (length b) 5 then ok none else do
  kind ← index b 0
  major ← index b 1
  size ← be16 b 3
  if not (kind == 22) || not (major == 3)
      then err "unexpected TLS record before ClientHello"
      else if ltb size 1 || ltb 18432 size
      then err "invalid TLS record length"
      else if ltb (length b) (5 + size)
      then ok none
      else do part ← slice b 5 (5 + size); rest ← slice_from b (5 + size); ok (some (part, rest))

-- The first handshake message, when it is complete.
unfoldable pub hello_message : Bytes → Res (Option Bytes)
hello_message handshake = if ltb (length handshake) 4 then ok none else do
  kind ← index handshake 0
  size ← be24 handshake 1
  if not (kind == 1)
      then err "first TLS handshake is not ClientHello"
      else if ltb max_client_hello size
      then err "TLS ClientHello size limit"
      else if ltb (length handshake) (4 + size)
      then ok none
      else do message ← slice handshake 4 (4 + size); ok (some message)

module _ (sum256 : Bytes → Bytes) where
  unfoldable pub evidence_of : HelloFields → Evidence
  evidence_of hello = record {
    sni = hello.sni;
    no_sni = length hello.sni == 0;
    ech = hello.ech;
    alpn = hello.alpn;
    ja4 = some (fingerprint sum256 116 hello.ja4);
  }

  unfoldable pub with_message :
      (TlsParser → Res TlsParser) → TlsParser → Option Bytes → Res TlsParser
  unfolding evidence_of
  with_message continue p none = continue p
  with_message continue p (some message) = do
    hello ← parse_client_hello message
    ok (record { record_bytes = []; handshake = []; done = true; evidence = evidence_of hello })

  unfoldable pub with_record :
      (TlsParser → Res TlsParser) → TlsParser → Option (Bytes × Bytes) → Res TlsParser
  unfolding with_message
  with_record continue p none = ok p
  with_record continue p (some (part, rest)) = do
    message ← hello_message (p.handshake ++ part)
    with_message continue (record p { record_bytes = rest; handshake = p.handshake ++ part })
        message

  -- The loop of `feed`.
  unfoldable pub feed_loop : ℕ → TlsParser → Res TlsParser
  unfolding with_record
  feed_loop zero p = panic
  feed_loop (suc rounds) p = do
    found ← next_record p.record_bytes
    with_record (feed_loop rounds) p found

  -- `feed`
  unfoldable pub feed : Bytes → TlsParser → Res TlsParser
  unfolding feed_loop
  feed bytes p =
      if p.done
      then ok p
      else if ltb (max_client_hello + 2 * 18432) (length p.record_bytes + length bytes)
      then err "TLS ClientHello size limit"
      else feed_loop (suc (length (p.record_bytes ++ bytes)))
          (record p { record_bytes = p.record_bytes ++ bytes })
