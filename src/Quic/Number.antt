-- ===== src/Quic/Number.antt =====
-- internal/quicinitial/initial.go, packetNumber.
use socktrail.Base.{ℕ, zero, suc, ◌+◌, ◌/◌, ◌%◌, ◌^◌, ◌*◌, ◌≤◌, ◌<◌, ◌≡◌, true, arith}
use socktrail.Quic.Keys.{packet_number}

-- The number lies within half a window of the one that is expected next.
abbrev pub IsNear : ℕ → ℕ → ℕ → Type 0
IsNear window expected pn = (expected < pn + window / 2) × (pn ≤ expected + window / 2)

-- A packet number that is sent in one to four bytes, and lies within half a window of the one that
-- is expected next, is read as itself.
pub packet_number-near :
    (largest pn size : ℕ)
    → 1 ≤ size
    → size ≤ 4
    → pn < 2 ^ 62
    → IsNear (2 ^ (size * 8)) (largest + 1) pn
    → packet_number true largest (pn % 2 ^ (size * 8)) size ≡ pn
unfolding packet_number
packet_number-near largest pn zero l k h (low, high) = absurd (omega (arith, l))
packet_number-near largest pn (suc zero) l k h (low, high) = ground arith
packet_number-near largest pn (suc (suc zero)) l k h (low, high) = ground arith
packet_number-near largest pn (suc (suc (suc zero))) l k h (low, high) = ground arith
packet_number-near largest pn (suc (suc (suc (suc zero)))) l k h (low, high) = ground arith
packet_number-near largest pn (suc (suc (suc (suc (suc n))))) l k h (low, high) =
    absurd (omega (arith, k))
