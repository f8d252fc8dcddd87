-- ===== src/Domain/Hostname.antt =====
-- internal/domain/stream.go, validHostname and normalizeName, and internal/domain/tls.go, printable.
-- A string is its bytes; case and white space are ASCII's, which is all that a name that
-- `validHostname` took can hold.
use socktrail.Base.{
  ℕ, ◌+◌, ◌≤◌, ◌≡◌, Bool, true, false, ◌&&◌, ◌||◌, [], ◌∷◌, Bytes, length, All, ltb, leb, ◌==◌,
  if◌then◌else◌, arith,
}

unfoldable pub all_hostname : Bytes → Bool
all_hostname [] = true
all_hostname (b ∷ bs) =
    if ltb b 33 || ltb 126 b || b == 47 || b == 58 || b == 92 then false else all_hostname bs

-- `validHostname`
unfoldable pub valid_hostname : Bytes → Bool
unfolding all_hostname
valid_hostname name = if length name == 0 || ltb 253 (length name) then false else all_hostname name

-- `printable`
unfoldable pub printable : Bytes → Bool
printable [] = true
printable (c ∷ cs) = if ltb c 33 || ltb 126 c then false else printable cs

unfoldable pub is_space : ℕ → Bool
is_space b = b == 32 || (leb 9 b && leb b 13)

unfoldable pub trim_left : Bytes → Bytes
trim_left [] = []
trim_left (b ∷ bs) = if is_space b then trim_left bs else b ∷ bs

unfoldable pub trim_right : Bytes → Bytes
trim_right [] = []
trim_right (b ∷ bs) =
    let rest = trim_right bs in if length rest == 0 && is_space b then [] else b ∷ rest

-- `strings.TrimSuffix(name, ".")`
unfoldable pub trim_dot : Bytes → Bytes
trim_dot [] = []
trim_dot (b ∷ bs) = if length bs == 0 && b == 46 then [] else b ∷ trim_dot bs

unfoldable pub to_lower : Bytes → Bytes
to_lower [] = []
to_lower (b ∷ bs) = (if leb 65 b && leb b 90 then b + 32 else b) ∷ to_lower bs

-- `normalizeName`
unfoldable pub normalize_name : Bytes → Bytes
unfolding trim_left trim_right trim_dot to_lower
normalize_name name = to_lower (trim_dot (trim_right (trim_left name)))

-- A character that a terminal shows.
abbrev pub IsPrintable : ℕ → Type 0
IsPrintable c = (33 ≤ c) × (c ≤ 126)

all_hostname-IsPrintable : (bs : Bytes) → all_hostname bs ≡ true → All IsPrintable bs
unfolding all_hostname
all_hostname-IsPrintable [] h = tt
all_hostname-IsPrintable (b ∷ bs) h = ground (arith, all_hostname-IsPrintable bs)

pub valid_hostname-IsPrintable : (name : Bytes) → valid_hostname name ≡ true → All IsPrintable name
unfolding valid_hostname
valid_hostname-IsPrintable name h = ground (arith, all_hostname-IsPrintable name)

pub printable-IsPrintable : (name : Bytes) → printable name ≡ true → All IsPrintable name
unfolding printable
printable-IsPrintable [] h = tt
printable-IsPrintable (c ∷ cs) h = ground (arith, printable-IsPrintable cs)

trim_left-IsPrintable : (bs : Bytes) → All IsPrintable bs → All IsPrintable (trim_left bs)
unfolding trim_left is_space
trim_left-IsPrintable [] h = tt
trim_left-IsPrintable (b ∷ bs) h = ground (arith, trim_left-IsPrintable bs)

trim_right-IsPrintable : (bs : Bytes) → All IsPrintable bs → All IsPrintable (trim_right bs)
unfolding trim_right
trim_right-IsPrintable [] h = tt
trim_right-IsPrintable (b ∷ bs) h = ground (arith, trim_right-IsPrintable bs)

trim_dot-IsPrintable : (bs : Bytes) → All IsPrintable bs → All IsPrintable (trim_dot bs)
unfolding trim_dot
trim_dot-IsPrintable [] h = tt
trim_dot-IsPrintable (b ∷ bs) h = ground (arith, trim_dot-IsPrintable bs)

to_lower-IsPrintable : (bs : Bytes) → All IsPrintable bs → All IsPrintable (to_lower bs)
unfolding to_lower
to_lower-IsPrintable [] h = tt
to_lower-IsPrintable (b ∷ bs) h = ground (arith, to_lower-IsPrintable bs)

pub normalize_name-IsPrintable :
    (name : Bytes) → All IsPrintable name → All IsPrintable (normalize_name name)
unfolding normalize_name
normalize_name-IsPrintable name h =
    to_lower-IsPrintable _
      (trim_dot-IsPrintable _ (trim_right-IsPrintable _ (trim_left-IsPrintable name h)))
