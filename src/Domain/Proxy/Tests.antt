-- ===== src/Domain/Proxy/Tests.antt =====
-- Handshakes for a.b:443 and a PROXY header, and the theorems at these inputs.
use socktrail.Base.{
  ◌≡◌, refl, [], ◌∷◌, ◌++◌, some, Bytes, codes, replicate, ok, Yields, arith, index, slice,
  slice_from, be16, index_byte,
}
use socktrail.Domain.Proxy.Socks.{
  host, endpoint, taken, more, socks5_handshake, socks5_request, socks5_target, socks4_request,
  socks4_user, socks4_name,
}
use socktrail.Domain.Proxy.Header.{
  proxy_v2_header, v2_client, proxy_v2_authority, v2_values_at, v2_values, v2_value,
}
use socktrail.Domain.Proxy.Bounds.{Fits, socks5_handshake-Fits, socks4_request-Fits}
use socktrail.Domain.Proxy.Stable.{Settled, socks5_handshake-Settled}
use socktrail.Domain.Proxy.Authority.{Prints, proxy_v2_authority-Prints}
use socktrail.Domain.Hostname.{valid_hostname, normalize_name, is_space}

-- A greeting without a password, and CONNECT.
abbrev socks5 : Bytes
socks5 = 5 ∷ 1 ∷ 0 ∷ 5 ∷ 1 ∷ 0 ∷ 3 ∷ 3 ∷ (codes "a.b" ++ (1 ∷ 187 ∷ []))

abbrev hello : Bytes
hello = 22 ∷ 3 ∷ 1 ∷ []

abbrev socks4 : Bytes
socks4 = 4 ∷ 1 ∷ 1 ∷ 187 ∷ 0 ∷ 0 ∷ 0 ∷ 1 ∷ 0 ∷ (codes "a.b" ++ (0 ∷ []))

-- Version 2, PROXY, TCP over IPv4, and an authority.
abbrev proxied : Bytes
proxied =
    13
    ∷ 10
    ∷ 13
    ∷ 10
    ∷ 0
    ∷ 13
    ∷ 10
    ∷ 81
    ∷ 85
    ∷ 73
    ∷ 84
    ∷ 10
    ∷ 0x21
    ∷ 0x11
    ∷ 0
    ∷ 18
    ∷ (replicate 12 1 ++ (2 ∷ 0 ∷ 3 ∷ codes "a.b"))

waiting : socks5_handshake (5 ∷ 1 ∷ 0 ∷ 5 ∷ []) ≡ ok more
unfolding socks5_handshake index socks5_request
waiting = refl

socks5_handshake-Settled_example :
    Settled (socks5_handshake socks5) (socks5_handshake (socks5 ++ hello))
socks5_handshake-Settled_example = socks5_handshake-Settled socks5 hello

socks5_handshake-Fits_example : Yields (Fits socks5) (socks5_handshake socks5)
socks5_handshake-Fits_example = socks5_handshake-Fits socks5

socks4_request-Fits_example : Yields (Fits socks4) (socks4_request socks4)
socks4_request-Fits_example = socks4_request-Fits socks4

proxy_v2_authority-Prints_example : Yields Prints (proxy_v2_authority proxied)
proxy_v2_authority-Prints_example = proxy_v2_authority-Prints proxied (omega arith)

socks5_read : socks5_handshake socks5 ≡ ok (taken 13 (host (codes "a.b")))
unfolding socks5_handshake index socks5_request socks5_target slice valid_hostname normalize_name
    is_space
socks5_read = refl

socks4_read : socks4_request socks4 ≡ ok (taken 13 (host (codes "a.b")))
unfolding socks4_request index slice_from socks4_user index_byte slice socks4_name valid_hostname
    normalize_name is_space
socks4_read = refl

proxied_read : proxy_v2_header proxied ≡ ok (taken 34 (endpoint (1 ∷ 1 ∷ 1 ∷ 1 ∷ []) 257))
unfolding proxy_v2_header index be16 v2_client slice
proxied_read = refl

authority_read : proxy_v2_authority proxied ≡ ok (some (codes "a.b"))
unfolding proxy_v2_authority index v2_values_at v2_values be16 slice v2_value valid_hostname
    normalize_name is_space
authority_read = refl
