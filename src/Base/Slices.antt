-- ===== src/Base/Slices.antt =====
-- Go byte slices as lists of numbers: indexing, slicing, and integers in either byte order.
-- Slicing is held to the length of the slice, though Go lets it grow up to the capacity: what is
-- shown not to panic here does not panic there.
use Prim.Native.Nat.{ℕ, zero, suc, ◌+◌, ◌-◌, ◌*◌, ◌/◌, ◌%◌, ◌≤◌, ◌<◌}
use mathlib.Core.Path.{◌≡◌, refl}
use mathlib.Core.List.{List, [], ◌∷◌, ◌++◌}
use mathlib.Core.Bool.{◌&&◌}
use native.Mathlib.Omega.{arith}
use socktrail.Base.Lists.{length, get_or, take, drop}
use socktrail.Base.Tests.{leb, if◌then◌else◌}
use socktrail.Base.Results.{Res, ok, panic, ◌>>=◌}

abbrev pub Bytes : Type 0
Bytes = List ℕ

abbrev pub IsByte : ℕ → Type 0
IsByte b = b < 256

-- `b[i]`
unfoldable pub index : Bytes → ℕ → Res ℕ
index [] i = panic
index (x ∷ xs) zero = ok x
index (x ∷ xs) (suc i) = index xs i

-- `b[i:j]`
unfoldable pub slice : Bytes → ℕ → ℕ → Res Bytes
slice b i j = if leb i j && leb j (length b) then ok (take (j - i) (drop i b)) else panic

-- `b[i:]`
unfoldable pub slice_from : Bytes → ℕ → Res Bytes
slice_from b i = if leb i (length b) then ok (drop i b) else panic

-- The bytes behind position `i`, read as one number; 0 stands for a byte that is not there.
abbrev pub at : Bytes → ℕ → ℕ
at b i = get_or b i 0

abbrev pub be16_at : Bytes → ℕ → ℕ
be16_at b i = at b i * 256 + at b (i + 1)

abbrev pub be24_at : Bytes → ℕ → ℕ
be24_at b i = at b i * 65536 + at b (i + 1) * 256 + at b (i + 2)

abbrev pub be32_at : Bytes → ℕ → ℕ
be32_at b i = be16_at b i * 65536 + be16_at b (i + 2)

abbrev pub le16_at : Bytes → ℕ → ℕ
le16_at b i = at b i + at b (i + 1) * 256

abbrev pub le32_at : Bytes → ℕ → ℕ
le32_at b i = le16_at b i + le16_at b (i + 2) * 65536

-- `binary.BigEndian.Uint16(b[i:])`, `Uint32(b[i:])`, and the three-byte lengths of TLS.
unfoldable pub be16 : Bytes → ℕ → Res ℕ
be16 b i = do x ← index b i; y ← index b (i + 1); ok (x * 256 + y)

unfoldable pub be24 : Bytes → ℕ → Res ℕ
be24 b i = do x ← index b i; y ← index b (i + 1); z ← index b (i + 2); ok (x * 65536 + y * 256 + z)

unfoldable pub be32 : Bytes → ℕ → Res ℕ
be32 b i = do x ← be16 b i; y ← be16 b (i + 2); ok (x * 65536 + y)

-- `binary.LittleEndian.Uint16(b[i:])`, `Uint32(b[i:])`.
unfoldable pub le16 : Bytes → ℕ → Res ℕ
le16 b i = do x ← index b i; y ← index b (i + 1); ok (x + y * 256)

unfoldable pub le32 : Bytes → ℕ → Res ℕ
le32 b i = do x ← le16 b i; y ← le16 b (i + 2); ok (x + y * 65536)

-- `binary.BigEndian.AppendUint16`, `binary.LittleEndian.AppendUint16` and `AppendUint32`, with no
-- destination: the caller appends them.
abbrev pub put_be16 : ℕ → Bytes
put_be16 v = v / 256 % 256 ∷ v % 256 ∷ []

abbrev pub put_le16 : ℕ → Bytes
put_le16 v = v % 256 ∷ v / 256 % 256 ∷ []

abbrev pub put_le32 : ℕ → Bytes
put_le32 v = v % 256 ∷ v / 256 % 256 ∷ v / 65536 % 256 ∷ v / 16777216 % 256 ∷ []

pub index_ok : (b : Bytes) (i : ℕ) → i < length b → index b i ≡ ok (at b i)
unfolding index
index_ok [] i h = absurd (omega arith)
index_ok (x ∷ xs) zero h = refl
index_ok (x ∷ xs) (suc i) h = index_ok xs i (omega arith)

pub slice_ok :
    (b : Bytes) (i j : ℕ) → i ≤ j → j ≤ length b → slice b i j ≡ ok (take (j - i) (drop i b))
unfolding slice
slice_ok b i j h k = ground arith

pub slice_from_ok : (b : Bytes) (i : ℕ) → i ≤ length b → slice_from b i ≡ ok (drop i b)
unfolding slice_from
slice_from_ok b i h = ground arith

pub be16_ok : (b : Bytes) (i : ℕ) → i + 2 ≤ length b → be16 b i ≡ ok (be16_at b i)
unfolding be16
be16_ok b i h = ground (arith, index_ok b i, index_ok b (i + 1))

pub be24_ok : (b : Bytes) (i : ℕ) → i + 3 ≤ length b → be24 b i ≡ ok (be24_at b i)
unfolding be24
be24_ok b i h = ground (arith, index_ok b i, index_ok b (i + 1), index_ok b (i + 2))

pub be32_ok : (b : Bytes) (i : ℕ) → i + 4 ≤ length b → be32 b i ≡ ok (be32_at b i)
unfolding be32
be32_ok b i h = ground (arith, be16_ok b i, be16_ok b (i + 2))

pub le16_ok : (b : Bytes) (i : ℕ) → i + 2 ≤ length b → le16 b i ≡ ok (le16_at b i)
unfolding le16
le16_ok b i h = ground (arith, index_ok b i, index_ok b (i + 1))

pub le32_ok : (b : Bytes) (i : ℕ) → i + 4 ≤ length b → le32 b i ≡ ok (le32_at b i)
unfolding le32
le32_ok b i h = ground (arith, le16_ok b i, le16_ok b (i + 2))

-- `part` lies in `whole`, as one piece.
abbrev pub IsSegment : Bytes → Bytes → Type 0
IsSegment part whole = (front : Bytes) × (back : Bytes) × (whole ≡ front ++ (part ++ back))
