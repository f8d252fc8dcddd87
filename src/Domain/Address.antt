-- ===== src/Domain/Address.antt =====
-- Addresses as bytes: `Unmap` of net/netip, which internal/domain calls.
use socktrail.Base.{Bool, true, ◌&&◌, [], ◌∷◌, Bytes, ◌==◌, if◌then◌else◌, take, drop, at}

unfoldable pub all_zero : Bytes → Bool
all_zero [] = true
all_zero (b ∷ bs) = b == 0 && all_zero bs

-- `netip.AddrFrom16(…).Unmap()`: an IPv4-mapped address becomes its last four bytes.
unfoldable pub unmapped : Bytes → Bytes
unmapped a = if all_zero (take 10 a) && (at a 10 == 255 && at a 11 == 255) then drop 12 a else a
