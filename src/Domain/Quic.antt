-- ===== src/Domain/Quic.antt =====
-- internal/domain/quic.go: the evidence of a ClientHello that came in QUIC Initial packets.
use socktrail.Base.{
  ◌-◌, ◌≤◌, ◌≡◌, Bool, not, ◌||◌, String, List, Bytes, length, drop, ltb, ◌==◌, if◌then◌else◌,
  arith, Res, ok, err, ◌>>=◌, index, slice_from, be24, index_ok, be24_ok, slice_from_ok, All, [],
  ◌∷◌, Ensures, Ensures-bind,
}
use socktrail.Domain.Stream.State.{max_pending_bytes}
use socktrail.Domain.Tls.Hello.{HelloFields, parse_client_hello}
use socktrail.Domain.Ja4.Fingerprint.{fingerprint}
use socktrail.Domain.Hostname.{IsPrintable}
use socktrail.Domain.Tls.Printable.{PrintableHello, parse_client_hello-PrintableHello}
use socktrail.Quic.Crypto.{PartOrder}
use socktrail.Quic.Keys.{Primitives}
use socktrail.Quic.Tracker.{Tracker}
use socktrail.Quic.Once.{Run, Run-Reached}
use socktrail.Quic.Safety.Crypto.{IsHello}

-- The fields of `Evidence` that are set here; texts are their bytes.
pub record QuicEvidence : Type 0 where
  pub kind : String
  pub sni : Bytes
  pub no_sni : Bool
  pub ech : Bool
  pub alpn : List Bytes
  pub ja4 : Bytes
  pub parse_error : String

module _ (sum256 : Bytes → Bytes) where
  unfoldable pub hello_evidence : HelloFields → QuicEvidence
  hello_evidence hello = record {
    kind = "quic";
    sni = hello.sni;
    no_sni = length hello.sni == 0;
    ech = hello.ech;
    alpn = hello.alpn;
    ja4 = fingerprint sum256 113 hello.ja4;
    parse_error = "";
  }

  -- `NewQUICClientHello`
  unfoldable pub new_quic_client_hello : Bytes → Res QuicEvidence
  unfolding hello_evidence
  new_quic_client_hello handshake =
      if ltb (length handshake) 4 then err "invalid QUIC ClientHello" else do
        kind ← index handshake 0
        size ← be24 handshake 1
        if not (kind == 1)
            then err "invalid QUIC ClientHello"
            else if not (size == length handshake - 4) || ltb max_pending_bytes size
            then err "invalid QUIC ClientHello length"
            else do
              body ← slice_from handshake 4
              hello ← parse_client_hello body
              ok (hello_evidence hello)

  -- The name and the protocols hold nothing but printable characters.
  unfoldable pub IsPrinted : QuicEvidence → Type 0
  IsPrinted e = All IsPrintable e.sni × All (All IsPrintable) e.alpn

  -- A message that is not refused for its type or its length, and whose evidence is printable.
  pub record IsAnswered (message : Bytes) : Type 0 where
    pub parsed :
        new_quic_client_hello message
        ≡ (do hello ← parse_client_hello (drop 4 message); ok (hello_evidence hello))
    pub printed : Ensures IsPrinted (new_quic_client_hello message)

  new_quic_client_hello-IsHello :
      (message : Bytes)
      → IsHello message
      → new_quic_client_hello message
        ≡ (do hello ← parse_client_hello (drop 4 message); ok (hello_evidence hello))
  unfolding new_quic_client_hello
  new_quic_client_hello-IsHello message h =
      let long : 4 ≤ length message = omega (arith, h.size) in
      ground (
        arith,
        h.kind,
        h.size,
        h.limit,
        index_ok message 0,
        be24_ok message 1,
        slice_from_ok message 4,
      )

  IsHello-IsAnswered : (message : Bytes) → IsHello message → IsAnswered message
  unfolding IsPrinted hello_evidence
  IsHello-IsAnswered message h =
      let parsed = new_quic_client_hello-IsHello message h in
      record {
        parsed = parsed;
        printed = rw parsed (
            Ensures-bind PrintableHello IsPrinted (parse_client_hello (drop 4 message)) _
              (parse_client_hello-PrintableHello (drop 4 message))
              (λ hello k. (k.sni_printable, k.alpn_printable)));
      }

  All-IsAnswered : (ms : List Bytes) → All IsHello ms → All IsAnswered ms
  All-IsAnswered [] h = tt
  All-IsAnswered (m ∷ ms) (h, k) = (IsHello-IsAnswered m h, All-IsAnswered ms k)

  -- Whatever the sequence of calls of Add, Tick and Fail on a new tracker, NewQUICClientHello never
  -- refuses a message that the tracker handed over for its type or its length: it answers with the
  -- evidence of the parsed ClientHello or with the error of that parse, without a panic, and the name
  -- and the protocols of the evidence are printable.
  pub Run-IsAnswered :
      (P : Primitives) (R : PartOrder) (ms : List Bytes) (t : Tracker P)
      → Run P R ms t
      → All IsAnswered ms
  Run-IsAnswered P R ms t r = All-IsAnswered ms (Run-Reached P R ms t r).whole
