-- ===== src/Domain/Dns/Cache.antt =====
-- internal/domain/dns.go, DNSCache. Go's map is an association list with one entry for each address,
-- which no operation depends on the order of. Times are in nanoseconds. An address is its bytes.
use socktrail.Base.{
  ℕ, ◌+◌, ◌-◌, Bool, true, false, ◌&&◌, ◌||◌, List, [], ◌∷◌, ◌++◌, map, Option, none, some, Bytes,
  length, drop, ltb, leb, ◌==◌, if◌then◌else◌,
}
use socktrail.Domain.Address.{unmapped}
use socktrail.Domain.Dns.Message.{DnsAnswer}

abbrev pub dns_hint_age : ℕ
dns_hint_age = 600000000000

abbrev pub second : ℕ
second = 1000000000

abbrev pub max_dns_addresses : ℕ
max_dns_addresses = 16384

abbrev pub max_names_per_address : ℕ
max_names_per_address = 4

-- `dnsAnswer`
pub record CachedName : Type 0 where
  pub name : Bytes
  pub first : ℕ
  pub last : ℕ

abbrev pub DnsCache : Type 0
DnsCache = List (Bytes × List CachedName)

-- Equality of Go strings, and of addresses.
unfoldable pub same : Bytes → Bytes → Bool
same [] [] = true
same [] (b ∷ bs) = false
same (a ∷ l) [] = false
same (a ∷ l) (b ∷ bs) = a == b && same l bs

unfoldable pub find : Bytes → DnsCache → Option (List CachedName)
find addr [] = none
find addr ((a, known) ∷ rest) = if same a addr then some known else find addr rest

-- `c.answers[addr] = known`
unfoldable pub store : Bytes → List CachedName → DnsCache → DnsCache
store addr known [] = (addr, known) ∷ []
store addr known ((a, old) ∷ rest) =
    let later = store addr known rest in if same a addr then (a, known) ∷ rest else (a, old) ∷ later

unfoldable pub has_name : Bytes → List CachedName → Bool
has_name name [] = false
has_name name (k ∷ ks) = same k.name name || has_name name ks

-- `known[i].last = now` at the first entry with the name.
unfoldable pub touch : Bytes → ℕ → List CachedName → List CachedName
touch name now [] = []
touch name now (k ∷ ks) =
    let later = touch name now ks in
    if same k.name name then record k { last = now } ∷ ks else k ∷ later

-- A new name behind the others, the oldest of which goes when there are too many.
unfoldable pub added : Bytes → ℕ → List CachedName → List CachedName
added name now known =
    let known' = known ++ (record { name = name; first = now; last = now } ∷ []) in
    if ltb max_names_per_address (length known') then drop 1 known' else known'

-- One round of the loop; `none` is its `return`.
unfoldable pub observe_known :
    Bytes → Bytes → ℕ → DnsCache → Option (List CachedName) → Option DnsCache
unfolding added touch
observe_known name addr now c none =
    if leb max_dns_addresses (length c) then none else some (store addr (added name now []) c)
observe_known name addr now c (some known) =
    if has_name name known
    then some (store addr (touch name now known) c)
    else some (store addr (added name now known) c)

-- `ObserveRecords`
unfoldable pub observe_records : Bytes → List DnsAnswer → ℕ → DnsCache → DnsCache
unfolding observe_known
observe_records name [] now c = c
observe_records name (r ∷ rs) now c = elim (observe_known name r.address now c (find r.address c)) [
  | none ↦ c
  | some c' ↦ observe_records name rs now c'
]

-- The loop of `Lookup`.
unfoldable pub lookup_loop : ℕ → Bool → Bytes → List CachedName → Bytes
lookup_loop at allow_later name [] = name
lookup_loop at allow_later name (k ∷ ks) =
    let later = lookup_loop at allow_later k.name ks in
    if ltb (at + second) k.first
    then if length name == 0 && allow_later then k.name else name
    else later

unfoldable pub known_of : Option (List CachedName) → List CachedName
known_of none = []
known_of (some known) = known

-- `Lookup`
unfoldable pub lookup : Bytes → ℕ → Bool → DnsCache → Bytes
unfolding lookup_loop known_of
lookup addr at allow_later c = lookup_loop at allow_later [] (known_of (find (unmapped addr) c))

-- `Names`
unfoldable pub names : Bytes → DnsCache → List Bytes
unfolding known_of
names addr c = map (λ (k : CachedName). k.name) (known_of (find (unmapped addr) c))

unfoldable pub fresh_names : ℕ → List CachedName → List CachedName
fresh_names now [] = []
fresh_names now (k ∷ ks) =
    let later = fresh_names now ks in if ltb dns_hint_age (now - k.last) then later else k ∷ later

-- `Expire`
unfoldable pub expire : ℕ → DnsCache → DnsCache
unfolding fresh_names
expire now [] = []
expire now ((a, known) ∷ rest) =
    let later = expire now rest in
    if length (fresh_names now known) == 0 then later else (a, fresh_names now known) ∷ later
