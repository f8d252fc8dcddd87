-- ===== src/Capture/Frames.antt =====
-- internal/capture/packet.go: `EthernetFrame` against `Decode`, and VLAN tags.
use socktrail.Base.{
  drop, be16-append, be16-put_be16, ℕ, zero, suc, ◌+◌, ◌*◌, ◌≤◌, ◌<◌, Bool, ◌≡◌, ◌≢◌, ◌⊎◌, refl,
  ◌∙◌, false, [], ◌∷◌, ◌++◌, Bytes, length, replicate, length-append, sym, ap, put_be16, List, All,
  append_assoc, arith, some, ok, be16, slice_from, ltb,
}
use socktrail.Capture.Packet.{ether_type_vlan, ether_type_qinq, ether_type_pppoe}
use socktrail.Capture.Network.{
  decode_network, skip_vlan, skip_pppoe, decode_behind, decode, ethernet_frame,
}

-- An EtherType read in place, and a VLAN tag: its EtherType and the two bytes behind it.
pub record Tag : Type 0 where
  pub kind : ℕ
  pub control : Bytes

pub record IsTag (t : Tag) : Type 0 where
  pub known : (t.kind ≡ ether_type_vlan) ⊎ (t.kind ≡ ether_type_qinq)
  pub two : length t.control ≡ 2

-- What follows the hardware addresses of a frame: its tags, its EtherType and its body.
pub tagged : List Tag → ℕ → Bytes → Bytes
tagged [] ether_type body = put_be16 ether_type ++ body
tagged (t ∷ ts) ether_type body = put_be16 t.kind ++ (t.control ++ tagged ts ether_type body)

-- The EtherType that stands first.
first_type : List Tag → ℕ → ℕ
first_type [] ether_type = ether_type
first_type (t ∷ ts) ether_type = t.kind

-- An EtherType that is no tag.
pub record IsUntagged (ether_type : ℕ) : Type 0 where
  pub fits : ether_type < 65536
  pub not_vlan : ether_type ≢ ether_type_vlan
  pub not_qinq : ether_type ≢ ether_type_qinq

-- A plain EtherType: neither a tag nor PPPoE.
pub record IsPlain (ether_type : ℕ) : Type 0 where
  pub fits : ether_type < 65536
  pub not_vlan : ether_type ≢ ether_type_vlan
  pub not_qinq : ether_type ≢ ether_type_qinq
  pub not_pppoe : ether_type ≢ ether_type_pppoe

be16-tagged :
    (ts : List Tag) (ether_type : ℕ) (body : Bytes)
    → All IsTag ts
    → ether_type < 65536
    → be16 (tagged ts ether_type body) 0 ≡ ok (first_type ts ether_type)
unfolding tagged first_type
be16-tagged [] ether_type body h k = be16-put_be16 ether_type body k
be16-tagged (t ∷ ts) ether_type body (h, hs) k = be16-put_be16 t.kind _ (ground (arith, h.known))

length-tagged :
    (ts : List Tag) (ether_type : ℕ) (body : Bytes)
    → All IsTag ts
    → length (tagged ts ether_type body) ≡ 2 + 4 * length ts + length body
unfolding tagged
length-tagged [] ether_type body h = omega arith
length-tagged (t ∷ ts) ether_type body (h, hs) = omega (
  arith,
  h.two,
  length-append t.control (tagged ts ether_type body),
  length-tagged ts ether_type body hs,
)

skip_vlan_step :
    (rounds : ℕ) (frame : Bytes) (kind offset : ℕ) {inner : ℕ}
    → (kind ≡ ether_type_vlan) ⊎ (kind ≡ ether_type_qinq)
    → offset + 4 ≤ length frame
    → be16 frame (offset + 2) ≡ ok inner
    → skip_vlan (suc rounds) frame kind offset ≡ skip_vlan rounds frame inner (offset + 4)
unfolding skip_vlan
skip_vlan_step rounds frame kind offset known h e = ground arith

skip_vlan_plain :
    (rounds : ℕ) (frame : Bytes) (ether_type offset : ℕ)
    → IsUntagged ether_type
    → skip_vlan rounds frame ether_type offset ≡ ok (some (ether_type, offset))
unfolding skip_vlan
skip_vlan_plain zero frame ether_type offset plain = refl
skip_vlan_plain (suc rounds) frame ether_type offset plain =
    ground (arith, plain.not_vlan, plain.not_qinq)

-- The bytes up to the next EtherType, with the first tag among them.
past : Bytes → Tag → Bytes
past front t = front ++ (put_be16 t.kind ++ t.control)

past-append :
    (front rest : Bytes) (t : Tag)
    → past front t ++ rest ≡ front ++ (put_be16 t.kind ++ (t.control ++ rest))
unfolding past
past-append front rest t = simp append_assoc

length-past : (front : Bytes) (t : Tag) → IsTag t → length (past front t) ≡ length front + 4
unfolding past
length-past front t h = omega (arith, h.two, length-append front (put_be16 t.kind ++ t.control))

skip_vlan-tagged :
    (rounds : ℕ) (front : Bytes) (ts : List Tag) (ether_type : ℕ) (body : Bytes)
    → All IsTag ts
    → IsUntagged ether_type
    → length ts ≤ rounds
    → skip_vlan rounds
        (front ++ tagged ts ether_type body)
        (first_type ts ether_type)
        (length front + 2)
      ≡ ok (some (ether_type, length front + 2 + 4 * length ts))
unfolding tagged first_type
skip_vlan-tagged zero front [] ether_type body h plain k =
    skip_vlan_plain zero (front ++ tagged [] ether_type body) ether_type (length front + 2) plain
    ∙ ap (λ n. ok (some (ether_type, n))) (omega arith)
skip_vlan-tagged zero front (t ∷ ts) ether_type body h plain k = absurd (omega arith)
skip_vlan-tagged (suc rounds) front [] ether_type body h plain k =
    skip_vlan_plain (suc rounds) (front ++ tagged [] ether_type body) ether_type (length front + 2)
      plain
    ∙ ap (λ n. ok (some (ether_type, n))) (omega arith)
skip_vlan-tagged (suc rounds) front (t ∷ ts) ether_type body (h, hs) plain k =
    let rest = tagged ts ether_type body in
    let long : 2 ≤ length rest = omega (arith, length-tagged ts ether_type body hs) in
    let seen =
      be16-append (past front t) rest (length front + 2 + 2) 0
        (omega (arith, length-past front t h))
      ∙ be16-tagged ts ether_type body hs plain.fits in
    rw (← past-append front rest t) (
      skip_vlan_step rounds _ t.kind (length front + 2) h.known
        (omega (arith, length-append (past front t) rest, length-past front t h)) seen
      ∙ ap (skip_vlan rounds (past front t ++ rest) (first_type ts ether_type))
          (omega (arith, length-past front t h))
      ∙ skip_vlan-tagged rounds (past front t) ts ether_type body hs plain (omega arith)
      ∙ ap (λ n. ok (some (ether_type, n))) (omega (arith, length-past front t h)))

-- The bytes before the body, and the body: how far the tags reach.
tagged_split :
    (ts : List Tag) (ether_type : ℕ) (body : Bytes)
    → All IsTag ts
    → (front : Bytes) × (tagged ts ether_type body ≡ front ++ body)
      × (length front ≡ 2 + 4 * length ts)
unfolding tagged
tagged_split [] ether_type body h = (put_be16 ether_type, refl, refl)
tagged_split (t ∷ ts) ether_type body (h, hs) =
    let (front, e, l) = tagged_split ts ether_type body hs in
    (
      put_be16 t.kind ++ (t.control ++ front),
      rw e (simp append_assoc),
      omega (arith, l, h.two, length-append t.control front),
    )

drop-append_at :
    (front body : Bytes) (i j : ℕ) → length front + j ≡ i → drop i (front ++ body) ≡ drop j body
drop-append_at [] body i j e = ap (λ n. drop n body) (omega arith)
drop-append_at (x ∷ xs) body zero j e = absurd (omega arith)
drop-append_at (x ∷ xs) body (suc i) j e = drop-append_at xs body i j (omega arith)

slice_from_append_at :
    (front body : Bytes) (i j : ℕ)
    → length front + j ≡ i
    → slice_from (front ++ body) i ≡ slice_from body j
unfolding slice_from
slice_from_append_at front body i j e =
    ground (arith, drop-append_at front body i j e, length-append front body)

-- Bytes in front of the body make no difference behind the EtherType.
decode_behind-append :
    (front body : Bytes) (ether_type : ℕ) (outgoing : Bool) (offset : ℕ)
    → length front ≡ offset
    → decode_behind (front ++ body) outgoing (some (ether_type, offset))
      ≡ decode_behind body outgoing (some (ether_type, 0))
unfolding decode_behind skip_pppoe
decode_behind-append front body ether_type outgoing offset e = ground (
  arith,
  length-append front body,
  be16-append front body (offset + 6) 6,
  slice_from_append_at front body (offset + 8) 8,
  slice_from_append_at front body offset 0,
)

decode_behind_plain :
    (ether_type : ℕ) (body : Bytes) (outgoing : Bool)
    → IsPlain ether_type
    → decode_behind body outgoing (some (ether_type, 0)) ≡ decode_network body ether_type outgoing
unfolding decode_behind skip_pppoe slice_from
decode_behind_plain ether_type body outgoing plain = ground (arith, plain.not_pppoe)

-- Up to two VLAN or QinQ tags make no difference to a frame whose EtherType is no third tag: it is
-- decoded as the body alone behind that EtherType, a PPPoE session included.
pub decode-tagged :
    (mac : Bytes) (ts : List Tag) (ether_type : ℕ) (body : Bytes) (outgoing : Bool)
    → length mac ≡ 12
    → All IsTag ts
    → length ts ≤ 2
    → IsUntagged ether_type
    → decode (mac ++ tagged ts ether_type body) outgoing
      ≡ decode_behind body outgoing (some (ether_type, 0))
unfolding decode
decode-tagged mac ts ether_type body outgoing m h k plain =
    let (front, e, l) = tagged_split ts ether_type body h in
    let whole = mac ++ tagged ts ether_type body in
    let long : ltb (length whole) 14 ≡ false =
      ground (
        arith,
        length-append mac (tagged ts ether_type body),
        length-tagged ts ether_type body h,
      ) in
    let seen : be16 whole 12 ≡ ok (first_type ts ether_type) =
      be16-append mac (tagged ts ether_type body) 12 0 (omega arith)
      ∙ be16-tagged ts ether_type body h plain.fits in
    let walked : skip_vlan 2 whole (first_type ts ether_type) 14
        ≡ ok (some (ether_type, 14 + 4 * length ts)) =
      ap (skip_vlan 2 whole (first_type ts ether_type)) (omega arith)
      ∙ skip_vlan-tagged 2 mac ts ether_type body h plain k
      ∙ ap (λ n. ok (some (ether_type, n))) (omega arith) in
    let cut : whole ≡ (mac ++ front) ++ body =
      ap (λ w. mac ++ w) e ∙ sym (append_assoc mac front body) in
    rw (long, seen, walked)
      (ap (λ w. decode_behind w outgoing (some (ether_type, 14 + 4 * length ts))) cut
        ∙ decode_behind-append (mac ++ front) body ether_type outgoing (14 + 4 * length ts)
            (omega (arith, l, length-append mac front)))

-- `EthernetFrame` wraps a packet so that `Decode` hands it on as it was, for an EtherType that is no
-- VLAN tag and not PPPoE.
pub decode-ethernet_frame :
    (ether_type : ℕ) (packet : Bytes) (outgoing : Bool)
    → IsPlain ether_type
    → decode (ethernet_frame ether_type packet) outgoing ≡ decode_network packet ether_type outgoing
unfolding ethernet_frame
decode-ethernet_frame ether_type packet outgoing plain =
    unfold tagged in
    decode-tagged (replicate 12 0) [] ether_type packet outgoing refl tt (omega arith)
      (record { fits = plain.fits; not_vlan = plain.not_vlan; not_qinq = plain.not_qinq })
    ∙ decode_behind_plain ether_type packet outgoing plain
