-- ===== src/Domain/Proxy/Header.antt =====
-- internal/domain/stream.go, proxyV2Header and proxyV2Authority.
use socktrail.Base.{
  ℕ, zero, suc, ◌+◌, ◌-◌, ◌/◌, ◌%◌, not, ◌&&◌, [], Option, none, some, Bytes, length, ltb, leb,
  ◌==◌, if◌then◌else◌, Res, ok, panic, ◌>>=◌, index, slice, be16,
}
use socktrail.Domain.Address.{unmapped}
use socktrail.Domain.Hostname.{valid_hostname, normalize_name}
use socktrail.Domain.Proxy.Socks.{nobody, endpoint, Verdict, more, refused, taken}

-- The source address behind the header's fixed part.
unfoldable pub v2_client : Bytes → ℕ → Res Verdict
v2_client b used = do
  command ← index b 12
  family ← index b 13
  if command % 16 == 0
      then ok (taken used nobody)
      else if family == 0x11 && leb (16 + 12) used
      then (do addr ← slice b 16 20; port ← be16 b 24; ok (taken used (endpoint addr port)))
      else if family == 0x21 && leb (16 + 36) used
      then (do
        addr ← slice b 16 32
        port ← be16 b 48
        ok (taken used (endpoint (unmapped addr) port)))
      else ok (taken used nobody)

-- `proxyV2Header`
unfoldable pub proxy_v2_header : Bytes → Res Verdict
proxy_v2_header b = if ltb (length b) 16 then ok more else do
  version ← index b 12
  if not (version / 16 == 2) then ok refused else do
    size ← be16 b 14
    if ltb (length b) (16 + size) then ok more else v2_client b (16 + size)

-- A TLV with the authority, where there was none before.
unfoldable pub v2_value : ℕ → Bytes → Bytes → Bytes
v2_value kind part authority =
    if kind == 0x02 && length authority == 0 && valid_hostname part
    then normalize_name part
    else authority

-- The loop over the TLVs; every turn takes at least three bytes. `none` where the Boolean result is
-- false.
unfoldable pub v2_values : ℕ → Bytes → ℕ → Bytes → Res (Option Bytes)
v2_values zero b offset authority = panic
v2_values (suc turns) b offset authority =
    if leb (length b) offset
    then ok (some authority)
    else if ltb (length b - offset) 3
    then ok none
    else do
      kind ← index b offset
      size ← be16 b (offset + 1)
      if ltb (length b - (offset + 3)) size then ok none else do
        part ← slice b (offset + 3) (offset + 3 + size)
        v2_values turns b (offset + 3 + size) (v2_value kind part authority)

-- The TLVs behind addresses of the given size.
unfoldable pub v2_values_at : Bytes → ℕ → Res (Option Bytes)
v2_values_at b offset =
    if ltb (length b) offset then ok none else v2_values (suc (length b)) b offset []

-- `proxyV2Authority`, of a whole header.
unfoldable pub proxy_v2_authority : Bytes → Res (Option Bytes)
proxy_v2_authority b = do
  command ← index b 12
  family ← index b 13
  if command % 16 == 0
      then v2_values_at b 16
      else if family / 16 == 1
      then v2_values_at b (16 + 12)
      else if family / 16 == 2
      then v2_values_at b (16 + 36)
      else if family / 16 == 3
      then v2_values_at b (16 + 216)
      else ok (some [])
