-- ===== src/AppProto/Tests.antt =====
-- Payloads of known protocols, and the theorems at these.
use socktrail.Base.{◌≡◌, Bytes, ◌∷◌, [], codes, Runs}
use socktrail.AppProto.Tcp.{tcp}
use socktrail.AppProto.Udp.{udp}
use socktrail.AppProto.Safety.Tcp.{tcp-Runs}
use socktrail.AppProto.Safety.Udp.{udp-Runs}
use socktrail.AppProto.Direction.{detect_swap}

-- A PostgreSQL start-up message of nine bytes.
abbrev startup : Bytes
startup = 0 ∷ 0 ∷ 0 ∷ 9 ∷ 0 ∷ 3 ∷ 0 ∷ 0 ∷ 0 ∷ []

tcp-Runs_example : Runs (tcp startup 40000 5432)
tcp-Runs_example = tcp-Runs startup 40000 5432

-- An IKE port, with four bytes that are no marker: ESP behind NAT.
abbrev esp : Bytes
esp = 9 ∷ 9 ∷ 9 ∷ 9 ∷ codes "0123456789012345678901234567"

udp-Runs_example : Runs (udp esp 4500 4500)
udp-Runs_example = udp-Runs esp 4500 4500

detect_swap_example :
    (tcp startup 40000 5432 ≡ tcp startup 5432 40000)
    × (udp startup 40000 5432 ≡ udp startup 5432 40000)
detect_swap_example = detect_swap startup 40000 5432
