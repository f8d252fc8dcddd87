-- ===== src/Domain/Dns/Bounds.antt =====
-- internal/domain/dns.go, DNSCache: its size, and what it answers.
use socktrail.Base.{
  ℕ, ◌+◌, ◌≤◌, ◌<◌, ◌≡◌, refl, Bool, true, false, List, [], ◌∷◌, ◌++◌, Option, none, some, Bytes,
  length, drop, All, length-append, leb, arith, Bool-cases, inl, inr, length-drop,
}
use socktrail.Domain.Address.{unmapped}
use socktrail.Domain.Dns.Message.{DnsAnswer}
use socktrail.Domain.Dns.Cache.{
  CachedName, DnsCache, max_dns_addresses, max_names_per_address, second, same, find, store,
  has_name, touch, added, observe_known, observe_records, lookup_loop, known_of, lookup,
  fresh_names, expire,
}

-- An address has a name at least, and four at most.
abbrev pub FewNames : List CachedName → Type 0
FewNames known = (0 < length known) × (length known ≤ max_names_per_address)

pub record IsBounded (c : DnsCache) : Type 0 where
  pub few_addresses : length c ≤ max_dns_addresses
  pub few_names : All (λ entry. FewNames entry.1) c

added-FewNames :
    (name : Bytes) (now : ℕ) (known : List CachedName)
    → length known ≤ max_names_per_address
    → FewNames (added name now known)
unfolding added
added-FewNames name now known h =
    let new : CachedName = record { name = name; first = now; last = now } in
    ground (arith, length-append known (new ∷ []), length-drop 1 (known ++ (new ∷ [])))

length-touch :
    (name : Bytes) (now : ℕ) (known : List CachedName)
    → length (touch name now known) ≡ length known
unfolding touch
length-touch name now [] = refl
length-touch name now (k ∷ ks) = ground (arith, length-touch name now ks)

find-FewNames :
    (addr : Bytes) (c : DnsCache) (known : List CachedName)
    → All (λ entry. FewNames entry.1) c
    → find addr c ≡ some known
    → FewNames known
unfolding find
find-FewNames addr [] known h e = absurd (cc)
find-FewNames addr ((a, old) ∷ rest) known (h, hs) e =
    ground (arith, find-FewNames addr rest known hs)

store-FewNames :
    (addr : Bytes) (known : List CachedName) (c : DnsCache)
    → FewNames known
    → All (λ entry. FewNames entry.1) c
    → All (λ entry. FewNames entry.1) (store addr known c)
unfolding store
store-FewNames addr known [] k h = (k, tt)
store-FewNames addr known ((a, old) ∷ rest) k (h, hs) =
    ground (arith, store-FewNames addr known rest k hs)

-- Storing adds an entry only where the address was not known.
length-store :
    (addr : Bytes) (known : List CachedName) (c : DnsCache)
    → length (store addr known c) ≤ length c + 1
unfolding store
length-store addr known [] = omega arith
length-store addr known ((a, old) ∷ rest) = ground (arith, length-store addr known rest)

length-store_known :
    (addr : Bytes) (known old : List CachedName) (c : DnsCache)
    → find addr c ≡ some old
    → length (store addr known c) ≡ length c
unfolding store find
length-store_known addr known old [] e = absurd (cc)
length-store_known addr known old ((a, o) ∷ rest) e =
    ground (arith, length-store_known addr known old rest)

abbrev BoundedOption : Option DnsCache → Type 0
BoundedOption none = Unit {0}
BoundedOption (some c) = IsBounded c

observe_known-IsBounded :
    (name addr : Bytes) (now : ℕ) (c : DnsCache) (old : Option (List CachedName))
    → find addr c ≡ old
    → IsBounded c
    → BoundedOption (observe_known name addr now c old)
unfolding observe_known
observe_known-IsBounded name addr now c none e h =
    elim (Bool-cases (leb max_dns_addresses (length c))) [
      | inl y ↦ rw y tt
      | inr n ↦ rw n (record {
        few_addresses = ground (arith, n, length-store addr (added name now []) c);
        few_names =
            store-FewNames addr (added name now []) c (added-FewNames name now [] (omega arith))
              h.few_names;
      })
    ]
observe_known-IsBounded name addr now c (some known) e h =
    let few = find-FewNames addr c known h.few_names e in
    let stored : (k : List CachedName) → FewNames k → IsBounded (store addr k c) = λ k good.
      record {
        few_addresses = omega (arith, length-store_known addr k known c e, h.few_addresses);
        few_names = store-FewNames addr k c good h.few_names;
      } in
    elim (Bool-cases (has_name name known)) [
      | inl y ↦ rw y (
          stored (touch name now known) (
            omega (arith, few, length-touch name now known),
            omega (arith, few, length-touch name now known),
          ))
      | inr n ↦ rw n (stored (added name now known) (added-FewNames name now known few.1))
    ]

step-IsBounded :
    (o : Option DnsCache) (c : DnsCache) (next : DnsCache → DnsCache)
    → BoundedOption o
    → IsBounded c
    → ((c' : DnsCache) → IsBounded c' → IsBounded (next c'))
    → IsBounded (elim o [ none ↦ c | some c' ↦ next c' ])
step-IsBounded none c next k h go = h
step-IsBounded (some c') c next k h go = go c' k

observe_records-IsBounded :
    (name : Bytes) (rs : List DnsAnswer) (now : ℕ) (c : DnsCache)
    → IsBounded c
    → IsBounded (observe_records name rs now c)
unfolding observe_records
observe_records-IsBounded name [] now c h = h
observe_records-IsBounded name (r ∷ rs) now c h =
    step-IsBounded (observe_known name r.address now c (find r.address c)) c
      (observe_records name rs now)
      (observe_known-IsBounded name r.address now c (find r.address c) refl h) h
      (λ c' k. observe_records-IsBounded name rs now c' k)

length-fresh_names :
    (now : ℕ) (known : List CachedName) → length (fresh_names now known) ≤ length known
unfolding fresh_names
length-fresh_names now [] = omega arith
length-fresh_names now (k ∷ ks) = ground (arith, length-fresh_names now ks)

expire-le :
    (now : ℕ) (c : DnsCache)
    → All (λ entry. FewNames entry.1) c
    → (length (expire now c) ≤ length c) × All (λ entry. FewNames entry.1) (expire now c)
unfolding expire
expire-le now [] h = (omega arith, tt)
expire-le now ((a, known) ∷ rest) (h, hs) =
    ground (arith, expire-le now rest hs, length-fresh_names now known)

-- Observing an answer and expiring old ones keep the cache within 16384 addresses, each with one to
-- four names.
pub observe-expire-IsBounded :
    (name : Bytes) (rs : List DnsAnswer) (now : ℕ) (c : DnsCache)
    → IsBounded c
    → IsBounded (observe_records name rs now c) × IsBounded (expire now c)
observe-expire-IsBounded name rs now c h =
    let (shorter, few) = expire-le now c h.few_names in
    (
      observe_records-IsBounded name rs now c h,
      record { few_addresses = omega (arith, shorter, h.few_addresses); few_names = few },
    )

same_refl : (a : Bytes) → same a a ≡ true
unfolding same
same_refl [] = refl
same_refl (b ∷ bs) = ground (arith, same_refl bs)

find-store :
    (addr : Bytes) (known : List CachedName) (c : DnsCache)
    → find addr (store addr known c) ≡ some known
unfolding find store
find-store addr known [] = ground (arith, same_refl addr)
find-store addr known ((a, old) ∷ rest) = ground (arith, find-store addr known rest)

-- Names that were first seen in time for a connection that started at `at`.
abbrev pub InTime : ℕ → List CachedName → Type 0
InTime at known = All (λ k. k.first ≤ at + second) known

lookup_loop-last :
    (at : ℕ) (allow_later : Bool) (before : Bytes) (known : List CachedName) (new : CachedName)
    → InTime at known
    → new.first ≤ at + second
    → lookup_loop at allow_later before (known ++ (new ∷ [])) ≡ new.name
unfolding lookup_loop
lookup_loop-last at allow_later before [] new h k = ground arith
lookup_loop-last at allow_later before (x ∷ xs) new (h, hs) k =
    ground (arith, lookup_loop-last at allow_later x.name xs new hs k)

lookup_loop-drop :
    (at : ℕ) (allow_later : Bool) (before : Bytes) (known : List CachedName) (new : CachedName)
    → InTime at known
    → new.first ≤ at + second
    → 0 < length known
    → lookup_loop at allow_later before (drop 1 (known ++ (new ∷ []))) ≡ new.name
lookup_loop-drop at allow_later before [] new h k l = absurd (omega arith)
lookup_loop-drop at allow_later before (x ∷ xs) new (h, hs) k l =
    lookup_loop-last at allow_later before xs new hs k

lookup_loop-added :
    (at now : ℕ) (allow_later : Bool) (name : Bytes) (known : List CachedName)
    → InTime at known
    → now ≤ at + second
    → lookup_loop at allow_later [] (added name now known) ≡ name
unfolding added
lookup_loop-added at now allow_later name known h k =
    let new : CachedName = record { name = name; first = now; last = now } in
    ground (
      arith,
      lookup_loop-last at allow_later [] known new h k,
      lookup_loop-drop at allow_later [] known new h k,
      length-append known (new ∷ []),
    )

-- A name that is new for an address is what a lookup answers, of the address or of its IPv4-mapped
-- form, in a cache of fewer than 16384 addresses, for a connection that started no more than a second
-- before the answer, nor before the first sight of each of the address's other names.
pub lookup-observe_records :
    (name addr : Bytes) (r : DnsAnswer) (at now : ℕ) (allow_later : Bool) (c : DnsCache)
    → unmapped addr ≡ r.address
    → length c < max_dns_addresses
    → InTime at (known_of (find r.address c))
    → has_name name (known_of (find r.address c)) ≡ false
    → now ≤ at + second
    → lookup addr at allow_later (observe_records name (r ∷ []) now c) ≡ name
unfolding lookup observe_records observe_known known_of
lookup-observe_records name addr r at now allow_later c form room h new k = rw form (
    ground (
      arith,
      lookup_loop-added at now allow_later name (known_of (find r.address c)) h k,
      find-store r.address (added name now (known_of (find r.address c))) c,
    ))
