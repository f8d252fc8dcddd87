-- ===== src/Domain/Proxy/Authority.antt =====
-- internal/domain/stream.go, proxyV2Authority.
use socktrail.Base.{
  ℕ, zero, suc, ◌+◌, ◌-◌, ◌≤◌, ◌<◌, inl, inr, ◌&&◌, [], Option, none, some, Bytes, length, take,
  drop, ltb, leb, ◌==◌, arith, Bool-cases, Yields, index_ok, slice_ok, be16_ok, be16_at, at, All,
}
use socktrail.Domain.Hostname.{
  IsPrintable, valid_hostname, valid_hostname-IsPrintable, normalize_name-IsPrintable,
}
use socktrail.Domain.Proxy.Header.{v2_value, v2_values, v2_values_at, proxy_v2_authority}

-- A printable name, or none.
abbrev pub Prints : Option Bytes → Type 0
Prints none = Unit {0}
Prints (some name) = All IsPrintable name

v2_value-Prints :
    (kind : ℕ) (part authority : Bytes)
    → All IsPrintable authority
    → All IsPrintable (v2_value kind part authority)
unfolding v2_value
v2_value-Prints kind part authority h =
    elim (Bool-cases (kind == 0x02 && length authority == 0 && valid_hostname part)) [
      | inl y ↦
          rw y
            (normalize_name-IsPrintable part (valid_hostname-IsPrintable part (ground (arith, y))))
      | inr n ↦ rw n h
    ]

v2_values-Prints :
    (turns : ℕ) (b : Bytes) (offset : ℕ) (authority : Bytes)
    → length b < turns + offset
    → offset ≤ length b
    → All IsPrintable authority
    → Yields Prints (v2_values turns b offset authority)
unfolding v2_values
v2_values-Prints zero b offset authority h l p = absurd (omega (arith, h, l))
v2_values-Prints (suc turns) b offset authority h l p =
    let size = be16_at b (offset + 1) in
    let next = offset + 3 + size in
    elim (Bool-cases (leb (length b) offset)) [
      | inl y ↦ rw y p
      | inr n ↦ rw n (elim (Bool-cases (ltb (length b - offset) 3)) [
        | inl y ↦ rw y tt
        | inr m ↦
            let room : offset + 3 ≤ length b = ground (arith, m, l) in
            rw
              (
                m,
                index_ok b offset (omega (arith, room)),
                be16_ok b (offset + 1) (omega (arith, room)),
              )
              (elim (Bool-cases (ltb (length b - (offset + 3)) size)) [
                | inl y ↦ rw y tt
                | inr k ↦
                    let fits : next ≤ length b = ground (arith, k, room) in
                    let part = take (next - (offset + 3)) (drop (offset + 3) b) in
                    rw (k, slice_ok b (offset + 3) next (omega arith) fits)
                      (v2_values-Prints turns b next (v2_value (at b offset) part authority)
                        (omega (arith, h)) fits (v2_value-Prints (at b offset) part authority p))
              ])
      ])
    ]

v2_values_at-Prints : (b : Bytes) (offset : ℕ) → Yields Prints (v2_values_at b offset)
unfolding v2_values_at
v2_values_at-Prints b offset = elim (Bool-cases (ltb (length b) offset)) [
  | inl y ↦ rw y tt
  | inr n ↦
      rw n (v2_values-Prints (suc (length b)) b offset [] (omega arith) (ground (arith, n)) tt)
]

-- Looking for the authority in a PROXY header of at least sixteen bytes ends without a panic, and an
-- authority that is found is printable.
pub proxy_v2_authority-Prints : (b : Bytes) → 16 ≤ length b → Yields Prints (proxy_v2_authority b)
unfolding proxy_v2_authority
proxy_v2_authority-Prints b h = ground (
  arith,
  h,
  index_ok b 12,
  index_ok b 13,
  v2_values_at-Prints b 16,
  v2_values_at-Prints b (16 + 12),
  v2_values_at-Prints b (16 + 36),
  v2_values_at-Prints b (16 + 216),
)
