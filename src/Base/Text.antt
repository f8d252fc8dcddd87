-- ===== src/Base/Text.antt =====
-- Go's `bytes` package on lists of bytes, and checks that read bytes on the way.
use Prim.Native.Char.{code}
use Prim.Native.Nat.{ℕ, zero, suc, ◌+◌, ◌-◌, ◌≤◌, ◌<◌}
use Prim.Native.String.{String}
use mathlib.Core.Path.{◌≡◌, refl}
use mathlib.Core.Bool.{Bool, true, false, ◌&&◌}
use mathlib.Core.List.{[], ◌∷◌}
use mathlib.Core.Option.{Option, none, some}
use native.Mathlib.Omega.{arith}
use socktrail.Base.Lists.{length, take, drop}
use socktrail.Base.Tests.{leb, ◌==◌, if◌then◌else◌}
use socktrail.Base.Results.{Res, ok, err, panic, ◌>>=◌, Ensures}
use socktrail.Base.Slices.{Bytes, index}

-- The bytes of an ASCII text.
abbrev pub codes : String → Bytes
codes String.[] = []
codes (String.◌∷◌ c s) = code c ∷ codes s

-- `bytes.Equal`
unfoldable pub equal : Bytes → Bytes → Bool
equal [] [] = true
equal [] (b ∷ bs) = false
equal (a ∷ l) [] = false
equal (a ∷ l) (b ∷ bs) = a == b && equal l bs

-- `bytes.HasPrefix(b, prefix)`
unfoldable pub has_prefix : Bytes → Bytes → Bool
has_prefix b [] = true
has_prefix [] (p ∷ ps) = false
has_prefix (b ∷ bs) (p ∷ ps) = b == p && has_prefix bs ps

-- `bytes.HasSuffix(b, suffix)`
unfoldable pub has_suffix : Bytes → Bytes → Bool
unfolding equal
has_suffix b suffix =
    leb (length suffix) (length b) && equal (drop (length b - length suffix) b) suffix

-- `bytes.Index(b, part)`, `none` for -1.
unfoldable pub index_of : Bytes → Bytes → Option ℕ
unfolding has_prefix
index_of part [] = if has_prefix [] part then some 0 else none
index_of part (b ∷ bs) =
    let later = index_of part bs in
    if has_prefix (b ∷ bs) part then some 0 else elim later [ none ↦ none | some i ↦ some (suc i) ]

-- `bytes.IndexByte(b, c)`, `none` for -1.
unfoldable pub index_byte : ℕ → Bytes → Option ℕ
index_byte c [] = none
index_byte c (b ∷ bs) =
    let later = index_byte c bs in
    if b == c then some 0 else elim later [ none ↦ none | some i ↦ some (suc i) ]

abbrev pub is_some {ℓ} : {A : Type ℓ} → Option A → Bool
is_some none = false
is_some (some a) = true

-- `bytes.Contains(b, part)`
unfoldable pub contains : Bytes → Bytes → Bool
unfolding index_of
contains b part = is_some (index_of part b)

-- The part of `b` before the first `sep`, or all of it: the first result of `bytes.Cut`.
unfoldable pub cut_before : Bytes → Bytes → Bytes
unfolding index_of
cut_before sep b = elim (index_of sep b) [ none ↦ b | some i ↦ take i b ]

-- Conditions that may panic, joined as Go's `&&` and `||`: the right side is left out where the left
-- one decides.
infixr 4 ◌&&?◌
infixr 3 ◌||?◌
abbrev pub ◌&&?◌ : Res Bool → Res Bool → Res Bool
ok true &&? k = k
ok false &&? k = ok false
err e &&? k = err e
panic &&? k = panic

abbrev pub ◌||?◌ : Res Bool → Res Bool → Res Bool
ok true ||? k = ok true
ok false ||? k = k
err e ||? k = err e
panic ||? k = panic

abbrev pub test_byte : (ℕ → Bool) → Bytes → ℕ → Res Bool
test_byte p b i = do x ← index b i; ok (p x)

-- The code does not panic.
abbrev pub Runs {ℓ} : {A : Type ℓ} → Res A → Type 0
Runs m = Ensures (λ _. Unit {0}) m

-- The second result of `bytes.Cut`: none if `sep` is not there.
unfoldable pub cut : Bytes → Bytes → Option (Bytes × Bytes)
unfolding index_of
cut sep b = elim (index_of sep b) [
  | none ↦ none
  | some i ↦ some (take i b, drop (i + length sep) b)
]

pub index_byte-lt : (c : ℕ) (b : Bytes) (i : ℕ) → index_byte c b ≡ some i → i < length b
unfolding index_byte
index_byte-lt c [] i h = absurd (cc)
index_byte-lt c (b ∷ bs) zero h = omega arith
index_byte-lt c (b ∷ bs) (suc i) h = ground (arith, index_byte-lt c bs i)

pub has_prefix-le : (b p : Bytes) → has_prefix b p ≡ true → length p ≤ length b
unfolding has_prefix
has_prefix-le b [] h = omega arith
has_prefix-le [] (p ∷ ps) h = absurd (cc)
has_prefix-le (b ∷ bs) (p ∷ ps) h = ground (arith, has_prefix-le bs ps)

pub index_of-le : (part b : Bytes) (i : ℕ) → index_of part b ≡ some i → i + length part ≤ length b
unfolding index_of
index_of-le part [] i h = ground (arith, has_prefix-le [] part)
index_of-le part (b ∷ bs) zero h = ground (arith, has_prefix-le (b ∷ bs) part)
index_of-le part (b ∷ bs) (suc i) h = ground (arith, index_of-le part bs i)

pub Runs-and : (m k : Res Bool) → Runs m → (m ≡ ok true → Runs k) → Runs (m &&? k)
Runs-and (ok true) k h g = g refl
Runs-and (ok false) k h g = tt
Runs-and (err e) k h g = tt
Runs-and panic k h g = h

pub Runs-or : (m k : Res Bool) → Runs m → (m ≡ ok false → Runs k) → Runs (m ||? k)
Runs-or (ok true) k h g = tt
Runs-or (ok false) k h g = g refl
Runs-or (err e) k h g = tt
Runs-or panic k h g = h
