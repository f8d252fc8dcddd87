-- ===== src/Domain/Proxy/Socks.antt =====
-- internal/domain/stream.go, socks5Handshake and socks4Request. A target that the code prints with
-- net/netip is kept as the bytes of its address.
use socktrail.Base.{
  ℕ, ◌+◌, not, ◌||◌, Option, none, some, Bytes, length, ltb, ◌==◌, if◌then◌else◌, Res, ok, ◌>>=◌,
  index, slice, slice_from, index_byte,
}
use socktrail.Domain.Hostname.{valid_hostname, normalize_name}

-- What a handshake asks for.
pub data Target : Type 0 where
  nobody : Target
  host : Bytes → Target
  address : Bytes → Target
  endpoint : Bytes → ℕ → Target

-- The three results: `0, "", true` waits for more bytes, `0, "", false` refuses, and the others tell
-- the bytes used and the target.
pub data Verdict : Type 0 where
  more : Verdict
  refused : Verdict
  taken : ℕ → Target → Verdict

-- The address of a SOCKS5 request, from its first byte on.
unfoldable pub socks5_target : Bytes → ℕ → ℕ → Res Verdict
socks5_target b kind offset =
    if kind == 1
    then (if ltb (length b) (offset + 6)
        then ok more
        else do part ← slice b offset (offset + 4); ok (taken (offset + 4 + 2) (address part)))
    else if kind == 4
    then (if ltb (length b) (offset + 18)
        then ok more
        else do part ← slice b offset (offset + 16); ok (taken (offset + 16 + 2) (address part)))
    else if kind == 3
    then (if ltb (length b) (offset + 1) then ok more else do
      size ← index b offset
      if ltb (length b) (offset + 1 + size + 2) then ok more else do
        name ← slice b (offset + 1) (offset + 1 + size)
        ok (
            if not (valid_hostname name)
            then refused
            else taken (offset + (1 + size) + 2) (host (normalize_name name))))
    else ok refused

-- The CONNECT request.
unfoldable pub socks5_request : Bytes → ℕ → Res Verdict
socks5_request b offset = if ltb (length b) (offset + 4) then ok more else do
  version ← index b offset
  command ← index b (offset + 1)
  reserved ← index b (offset + 2)
  if not (version == 5) || not (command == 1) || not (reserved == 0)
      then ok refused
      else do kind ← index b (offset + 3); socks5_target b kind (offset + 4)

-- The exchange of a user name and a password.
unfoldable pub socks5_login : Bytes → ℕ → Res Verdict
socks5_login b offset = if ltb (length b) (offset + 2) then ok more else do
  user ← index b (offset + 1)
  let behind = offset + (2 + user)
  if ltb (length b) (behind + 1)
      then ok more
      else do password ← index b behind; socks5_request b (behind + (1 + password))

-- `socks5Handshake`
unfoldable pub socks5_handshake : Bytes → Res Verdict
socks5_handshake b = if ltb (length b) 2 then ok more else do
  version ← index b 0
  methods ← index b 1
  let offset = 2 + methods
  if not (version == 5) || methods == 0
      then ok refused
      else if ltb (length b) (offset + 1)
      then ok more
      else do
        chosen ← index b offset
        if chosen == 1 then socks5_login b offset else socks5_request b offset

-- Bytes that do not end yet: wait while there are few of them.
unfoldable pub wait_below : ℕ → Bytes → Verdict
wait_below n b = if ltb (length b) n then more else refused

-- The domain of a SOCKS4a request.
unfoldable pub socks4_name : Bytes → ℕ → Option ℕ → Res Verdict
socks4_name b offset none = ok (wait_below (offset + 256) b)
socks4_name b offset (some name_end) = do
  name ← slice b offset (offset + name_end)
  ok (
      if not (valid_hostname name)
      then refused
      else taken (offset + name_end + 1) (host (normalize_name name)))

-- Behind the user ID.
unfoldable pub socks4_user : Bytes → Option ℕ → Res Verdict
socks4_user b none = ok (wait_below (8 + 256) b)
socks4_user b (some user_end) = do
  let offset = 8 + user_end + 1
  part ← slice b 4 8
  x ← index b 4
  y ← index b 5
  z ← index b 6
  w ← index b 7
  if not (x == 0) || not (y == 0) || not (z == 0) || w == 0
      then ok (taken offset (address part))
      else do rest ← slice_from b offset; socks4_name b offset (index_byte 0 rest)

-- `socks4Request`
unfoldable pub socks4_request : Bytes → Res Verdict
socks4_request b =
    if ltb (length b) 8
    then (if ltb (length b) 2
        then ok more
        else do command ← index b 1; ok (if command == 1 then more else refused))
    else do
      command ← index b 1
      if not (command == 1)
          then ok refused
          else do rest ← slice_from b 8; socks4_user b (index_byte 0 rest)
