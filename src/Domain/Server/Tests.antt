-- ===== src/Domain/Server/Tests.antt =====
-- The start of a server's reply, a certificate with one name, and the theorems at these inputs.
use mathlib.Core.List.Permᴰ
use socktrail.Base.{
  ◌+◌, ◌^◌, ◌≡◌, ◌↔◌, refl, true, false, [], ◌∷◌, ◌++◌, none, Bytes, replicate, codes, ok, panic,
  Yields, arith, index, slice, slice_from, equal,
}
use socktrail.Domain.Hostname.{valid_hostname, normalize_name, is_space}
use socktrail.Domain.Stream.State.{diff32, RangeOrder}
use socktrail.Domain.Server.Der.{der_element}
use socktrail.Domain.Server.Certificate.{certificate_names}
use socktrail.Domain.Server.Names.{Named, certificate_names-Named}
use socktrail.Domain.Server.Flight.{Flight, Evidence, add_server}
use socktrail.Domain.Server.Feeding.{Clean}
use socktrail.Domain.Server.Reassembly.{IsFlight}
use socktrail.Domain.Server.AddServer.{Leaves, add_server-Leaves, add_server_panic_iff}

abbrev in_order : RangeOrder
in_order = record { arrange = λ gs. gs; arrange_perm = Permᴰ.refl }

-- A certificate with the DNS name "A.example." and nothing else of interest.
abbrev alt_name : Bytes
alt_name = 0x30 ∷ 12 ∷ 0x82 ∷ 10 ∷ codes "A.example."

abbrev alt_extension : Bytes
alt_extension = 0x30 ∷ 21 ∷ 0x06 ∷ 3 ∷ 0x55 ∷ 0x1d ∷ 0x11 ∷ 0x04 ∷ 14 ∷ alt_name

abbrev certificate : Bytes
certificate = 0x30 ∷ 29 ∷ 0x30 ∷ 27 ∷ 0xa3 ∷ 25 ∷ 0x30 ∷ 23 ∷ alt_extension

one_name : certificate_names certificate ≡ ok (codes "a.example" ∷ [])
unfolding certificate_names der_element index slice_from slice equal valid_hostname normalize_name
    is_space
one_name = refl

certificate_names-Named_example : Yields Named (certificate_names certificate)
certificate_names-Named_example = certificate_names-Named certificate

abbrev fresh : Flight
fresh = record {
  expected = 0;
  started = false;
  done = false;
  record_bytes = [];
  handshake = [];
  pending = [];
  pending_bytes = 0;
  gap_since = none;
}

abbrev client : Evidence
client = record {
  is_tls = true;
  client_done = true;
  no_handshake = false;
  sni = [];
  tls_version = [];
  server_alpn = [];
  certificate = [];
  alert = [];
}

-- A TLS 1.2 ServerHello.
abbrev reply : Bytes
reply = 22 ∷ 3 ∷ 3 ∷ 0 ∷ 42 ∷ 2 ∷ 0 ∷ 0 ∷ 38 ∷ 3 ∷ 3 ∷ (replicate 32 7 ++ (0 ∷ 0x13 ∷ 1 ∷ 0 ∷ []))

fresh-IsFlight : IsFlight fresh
fresh-IsFlight = record {
  bounded = omega arith;
  counted = refl;
  limit = omega arith;
  count = omega arith;
  waiting = tt;
  idle = λ _. refl;
  dead = λ _. refl;
  records = omega arith;
  handshake = omega arith;
}

client-Clean : Clean client
client-Clean = record { names = record { few = omega arith; printable = tt }; protocol = tt }

add_server-Leaves_example :
    Yields (Leaves in_order) (add_server in_order 9 1000 reply 47 fresh client)
add_server-Leaves_example =
    add_server-Leaves in_order 9 1000 reply 47 fresh client fresh-IsFlight client-Clean
      (omega arith) (λ e. absurd (cc e))

abbrev started : Flight
started = record fresh { started = true; expected = 1000 }

started-IsFlight : IsFlight started
started-IsFlight = record {
  bounded = omega arith;
  counted = refl;
  limit = omega arith;
  count = omega arith;
  waiting = tt;
  idle = λ _. refl;
  dead = λ _. refl;
  records = omega arith;
  handshake = omega arith;
}

-- A segment that starts 2 ^ 31 bytes before the next expected one.
add_server_panic_iff_example :
    (add_server in_order 9 (1000 + 2 ^ 31) reply 47 started client ≡ panic)
    ↔ (diff32 (1000 + 2 ^ 31) 1000 ≡ 2 ^ 31)
add_server_panic_iff_example =
    add_server_panic_iff in_order 9 (1000 + 2 ^ 31) reply 47 started client started-IsFlight
      client-Clean (omega arith) refl refl
