-- ===== src/AppProto/Direction.antt =====
-- internal/appproto/detect.go: the ports, from either side.
use socktrail.Base.{ℕ, ◌≡◌, refl, ap, Bool, true, false, ◌||◌, Bytes, ◌==◌}
use mathlib.Core.Path.{fun_ext}
use socktrail.AppProto.Fields.{either_port}
use socktrail.AppProto.Tcp.{tcp_by, tcp}
use socktrail.AppProto.Udp.{udp_by, udp}

or_comm : (a b : Bool) → (a || b) ≡ (b || a)
or_comm true true = refl
or_comm true false = refl
or_comm false true = refl
or_comm false false = refl

either_port_comm :
    (source destination : ℕ) → either_port source destination ≡ either_port destination source
unfolding either_port
either_port_comm source destination =
    fun_ext (λ port. or_comm (source == port) (destination == port))

-- A packet and one with the same payload in the other direction are detected as the same protocol.
pub detect_swap :
    (payload : Bytes) (source destination : ℕ)
    → (tcp payload source destination ≡ tcp payload destination source)
      × (udp payload source destination ≡ udp payload destination source)
unfolding tcp udp
detect_swap payload source destination = (
  ap (tcp_by payload) (either_port_comm source destination),
  ap (udp_by payload) (either_port_comm source destination),
)
