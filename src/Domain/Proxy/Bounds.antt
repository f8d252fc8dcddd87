-- ===== src/Domain/Proxy/Bounds.antt =====
-- internal/domain/stream.go: the handshakes of a proxy on any bytes.
use socktrail.Base.{
  ℕ, ◌+◌, ◌-◌, ◌≤◌, ◌<◌, ◌≡◌, refl, inl, inr, not, Option, none, some, Bytes, length, length-drop,
  take, drop, if◌then◌else◌, arith, Bool-cases, Yields, index_ok, slice_ok, slice_from_ok, be16_ok,
  be16_at, at, index_byte, index_byte-lt, All,
}
use socktrail.Domain.Hostname.{
  IsPrintable, valid_hostname, normalize_name, valid_hostname-IsPrintable,
  normalize_name-IsPrintable,
}
use socktrail.Domain.Proxy.Socks.{
  Target, nobody, host, address, endpoint, Verdict, more, refused, taken, socks5_target,
  socks5_request, socks5_login, socks5_handshake, wait_below, socks4_name, socks4_user,
  socks4_request,
}
use socktrail.Domain.Proxy.Header.{v2_client, proxy_v2_header}

-- A name that can be printed.
abbrev pub Printable : Target → Type 0
Printable (host name) = All IsPrintable name
Printable nobody = Unit {0}
Printable (address a) = Unit {0}
Printable (endpoint a p) = Unit {0}

-- What is used lies in the bytes, and is not empty.
abbrev pub Fits : Bytes → Verdict → Type 0
Fits b more = Unit {0}
Fits b refused = Unit {0}
Fits b (taken used t) = (0 < used) × (used ≤ length b) × Printable t

host-Fits :
    (b name : Bytes) (used : ℕ)
    → 0 < used
    → used ≤ length b
    → Fits b
        (if not (valid_hostname name) then refused else taken used (host (normalize_name name)))
host-Fits b name used h k = elim (Bool-cases (valid_hostname name)) [
  | inl y ↦ rw y (h, k, normalize_name-IsPrintable name (valid_hostname-IsPrintable name y))
  | inr n ↦ rw n tt
]

socks5_target-Fits : (b : Bytes) (kind offset : ℕ) → Yields (Fits b) (socks5_target b kind offset)
unfolding socks5_target
socks5_target-Fits b kind offset =
    let size = at b offset in
    ground (
      arith,
      slice_ok b offset (offset + 4),
      slice_ok b offset (offset + 16),
      index_ok b offset,
      slice_ok b (offset + 1) (offset + 1 + size),
      host-Fits b (take (offset + 1 + size - (offset + 1)) (drop (offset + 1) b))
          (offset + (1 + size) + 2),
    )

socks5_request-Fits : (b : Bytes) (offset : ℕ) → Yields (Fits b) (socks5_request b offset)
unfolding socks5_request
socks5_request-Fits b offset = ground (
  arith,
  index_ok b offset,
  index_ok b (offset + 1),
  index_ok b (offset + 2),
  index_ok b (offset + 3),
  socks5_target-Fits b (at b (offset + 3)) (offset + 4),
)

socks5_login-Fits : (b : Bytes) (offset : ℕ) → Yields (Fits b) (socks5_login b offset)
unfolding socks5_login
socks5_login-Fits b offset =
    let behind = offset + (2 + at b (offset + 1)) in
    ground (
      arith,
      index_ok b (offset + 1),
      index_ok b behind,
      socks5_request-Fits b (behind + (1 + at b behind)),
    )

-- Reading a SOCKS5 handshake never panics; what it takes is not empty and lies in the bytes, and a
-- name that it asks for is printable.
pub socks5_handshake-Fits : (b : Bytes) → Yields (Fits b) (socks5_handshake b)
unfolding socks5_handshake
socks5_handshake-Fits b =
    let offset = 2 + at b 1 in
    ground (
      arith,
      index_ok b 0,
      index_ok b 1,
      index_ok b offset,
      socks5_login-Fits b offset,
      socks5_request-Fits b offset,
    )

wait_below-Fits : (n : ℕ) (b : Bytes) → Fits b (wait_below n b)
unfolding wait_below
wait_below-Fits n b = ground arith

socks4_name-Fits :
    (b : Bytes) (offset : ℕ) (name_end : Option ℕ)
    → ((n : ℕ) → name_end ≡ some n → offset + n < length b)
    → Yields (Fits b) (socks4_name b offset name_end)
unfolding socks4_name
socks4_name-Fits b offset none h = wait_below-Fits (offset + 256) b
socks4_name-Fits b offset (some n) h =
    let inside : offset + n < length b = h n refl in
    rw (slice_ok b offset (offset + n) (omega arith) (omega (arith, inside))) (
      host-Fits b (take (offset + n - offset) (drop offset b)) (offset + n + 1) (omega arith)
        (omega (arith, inside)))

socks4_user-Fits :
    (b : Bytes) (user_end : Option ℕ)
    → 8 ≤ length b
    → ((n : ℕ) → user_end ≡ some n → 8 + n < length b)
    → Yields (Fits b) (socks4_user b user_end)
unfolding socks4_user
socks4_user-Fits b none l h = wait_below-Fits (8 + 256) b
socks4_user-Fits b (some n) l h =
    let offset = 8 + n + 1 in
    let inside : 8 + n < length b = h n refl in
    let rest = drop offset b in
    let named =
      socks4_name-Fits b offset (index_byte 0 rest)
        (λ k e. omega (arith, index_byte-lt 0 rest k e, length-drop offset b)) in
    ground (
      arith,
      inside,
      slice_ok b 4 8,
      index_ok b 4,
      index_ok b 5,
      index_ok b 6,
      index_ok b 7,
      slice_from_ok b offset,
      named,
    )

-- Reading a SOCKS4 or SOCKS4a request never panics; what it takes is not empty and lies in the bytes,
-- and a name that it asks for is printable.
pub socks4_request-Fits : (b : Bytes) → Yields (Fits b) (socks4_request b)
unfolding socks4_request
socks4_request-Fits b =
    let rest = drop 8 b in
    let user : 8 ≤ length b → Yields (Fits b) (socks4_user b (index_byte 0 rest)) = λ l.
      socks4_user-Fits b (index_byte 0 rest) l
        (λ k e. omega (arith, index_byte-lt 0 rest k e, length-drop 8 b)) in
    ground (arith, index_ok b 1, slice_from_ok b 8, user)

v2_client-Fits :
    (b : Bytes) (used : ℕ) → 16 ≤ used → used ≤ length b → Yields (Fits b) (v2_client b used)
unfolding v2_client
v2_client-Fits b used h k = ground (
  arith,
  index_ok b 12,
  index_ok b 13,
  slice_ok b 16 20,
  slice_ok b 16 32,
  be16_ok b 24,
  be16_ok b 48,
)

-- Reading a PROXY header of version 2 never panics, and what it takes lies in the bytes.
pub proxy_v2_header-Fits : (b : Bytes) → Yields (Fits b) (proxy_v2_header b)
unfolding proxy_v2_header
proxy_v2_header-Fits b =
    ground (arith, index_ok b 12, be16_ok b 14, v2_client-Fits b (16 + be16_at b 14))
