-- ===== src/Domain/Tests.antt =====
-- A ClientHello for a.b in one TLS record, and the theorems about TLS at it.
use socktrail.Domain.Quic.{IsAnswered, Run-IsAnswered}
use socktrail.Quic.Wire.{read_varint, split_long_packet}
use socktrail.Quic.Crypto.{empty_stream, add_crypto}
use socktrail.Quic.Crypto
use socktrail.Quic.Keys.{derive_client_keys}
use socktrail.Quic.Frames.{frames}
use socktrail.Quic.Tracker.{Tracker, Answer, add, new_tracker}
use socktrail.Quic.Once.{adds, Run, start, more}
use socktrail.Quic.Witnesses.{plain, in_order}
use socktrail.Base.{
  index, be32, be16, be24, slice, slice_from, true, some, All, ok, ◌≡◌, refl, false, [], ◌∷◌, ◌++◌,
  Bytes, replicate, length, none, arith, ◌>>=◌, Ensures, ◌%◌, List, ℕ, take, drop,
}
use mathlib.Core.List.Permᴰ
use socktrail.Domain.Tls.Hello.{Ja4Fields, parse_client_hello}
use socktrail.Domain.Tls.Printable.{PrintableHello, parse_client_hello-PrintableHello}
use socktrail.Domain.Tls.Records.{TlsParser, feed}
use socktrail.Domain.Tls.Fragments.{feed-append, PrintableEvidence, feed-PrintableEvidence}
use socktrail.Domain.Ja4.Fingerprint.{keep, is_grease, without_grease, fingerprint}
use socktrail.Domain.Ja4.Order.{fingerprint-perm}

-- In place of SHA-256: 32 bytes that depend on the length.
abbrev some_hash : Bytes → Bytes
some_hash b = replicate 32 (length b % 256)

abbrev client_hello : Bytes
client_hello =
    3
    ∷ 3
    ∷ (replicate 32 7
        ++ (0 ∷ 0 ∷ 2 ∷ 0x13 ∷ 1 ∷ 1 ∷ 0 ∷ 0 ∷ 12 ∷ 0 ∷ 0 ∷ 0 ∷ 8 ∷ 0 ∷ 6 ∷ 0 ∷ 0 ∷ 3 ∷ 97 ∷ 46 ∷ 98
            ∷ []))

abbrev tls_record : Bytes
tls_record = 22 ∷ 3 ∷ 1 ∷ 0 ∷ 59 ∷ 1 ∷ 0 ∷ 0 ∷ 55 ∷ client_hello

abbrev fresh : TlsParser
fresh = record {
  record_bytes = [];
  handshake = [];
  done = false;
  evidence = record { sni = []; no_sni = false; ech = false; alpn = []; ja4 = none };
}

parse_client_hello-PrintableHello_example : Ensures PrintableHello (parse_client_hello client_hello)
parse_client_hello-PrintableHello_example = parse_client_hello-PrintableHello client_hello

feed-append_example :
    feed some_hash (take 20 tls_record ++ drop 20 tls_record) fresh
    ≡ (feed some_hash (take 20 tls_record) fresh >>= feed some_hash (drop 20 tls_record))
feed-append_example =
    feed-append some_hash (take 20 tls_record) (drop 20 tls_record) fresh (omega arith)

feed-PrintableEvidence_example :
    Ensures (λ q. PrintableEvidence some_hash q.evidence) (feed some_hash tls_record fresh)
feed-PrintableEvidence_example = feed-PrintableEvidence some_hash tls_record fresh (tt, tt)

-- What two hellos of a client share that shuffles and sends GREASE.
abbrev hello_fields : List ℕ → List ℕ → Ja4Fields
hello_fields ciphers extensions = record {
  version = 0x0303;
  versions = [];
  ciphers = ciphers;
  extensions = extensions;
  signatures = 0x0403 ∷ [];
  alpn = 104 ∷ 50 ∷ [];
}

fingerprint-perm_example :
    fingerprint some_hash 116 (hello_fields (0x0a0a ∷ 0x1301 ∷ 0x1302 ∷ []) (0 ∷ 23 ∷ []))
    ≡ fingerprint some_hash 116 (hello_fields (0x1302 ∷ 0x1301 ∷ 0xfafa ∷ []) (23 ∷ 0 ∷ []))
unfolding without_grease keep is_grease
fingerprint-perm_example =
    fingerprint-perm some_hash 116 (hello_fields (0x0a0a ∷ 0x1301 ∷ 0x1302 ∷ []) (0 ∷ 23 ∷ []))
      (hello_fields (0x1302 ∷ 0x1301 ∷ 0xfafa ∷ []) (23 ∷ 0 ∷ [])) (Permᴰ.swap refl refl)
      (Permᴰ.swap refl refl) refl refl refl refl

-- The same ClientHello with its header, and the datagram that carries it: an Initial packet of
-- version 1 with a CRYPTO frame and padding, for primitives that leave every byte as it is.
abbrev quic_message : Bytes
quic_message = 1 ∷ 0 ∷ 0 ∷ length client_hello ∷ client_hello

abbrev quic_datagram : Bytes
quic_datagram =
    0xc0
    ∷ 0
    ∷ 0
    ∷ 0
    ∷ 1
    ∷ 0
    ∷ 0
    ∷ 0
    ∷ 0x40
    ∷ 79
    ∷ 5
    ∷ 6
    ∷ 0
    ∷ length quic_message
    ∷ (quic_message ++ replicate 16 0)

abbrev behind : Tracker plain × Answer
behind = (
  record {
    version = 1;
    dcid = [];
    keys = some (record { aead = tt; hp = tt; iv = replicate 12 0 });
    largest_pn = 5;
    has_pn = true;
    stream = empty_stream;
    first = some 7;
    last = 7;
    done = true;
    failure = "";
  },
  record { hello = some quic_message; authenticated = true; error = none },
)

handed_over : add plain in_order quic_datagram 7 (new_tracker plain) ≡ ok behind
unfolding add split_long_packet index be32 be16 slice read_varint slice_from derive_client_keys
    frames add_crypto Crypto.client_hello be24
handed_over = refl

handing-Run : Run plain in_order (quic_message ∷ []) behind.0
handing-Run =
    more [] (new_tracker plain) behind.0 (some quic_message) start
      (adds quic_datagram 7 (new_tracker plain) behind handed_over)

Run-IsAnswered_example : All (IsAnswered some_hash) (quic_message ∷ [])
Run-IsAnswered_example =
    Run-IsAnswered some_hash plain in_order (quic_message ∷ []) behind.0 handing-Run
