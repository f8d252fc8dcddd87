-- ===== src/Base/Reads.antt =====
-- Reading back what stands behind a prefix, and numbers that were written.
use Prim.Native.Nat.{ℕ, zero, suc, ◌+◌, ◌-◌, ◌%◌, ◌^◌, ◌<◌}
use mathlib.Core.Path.{◌≡◌, ap, ◌∙◌}
use mathlib.Core.List.{[], ◌∷◌, ◌++◌}
use native.Mathlib.Omega.{arith}
use socktrail.Base.Lists.{length, take, length-append, take-append, drop-append}
use socktrail.Base.Results.{ok}
use socktrail.Base.Slices.{
  Bytes, index, slice, slice_from, slice_ok, slice_from_ok, be16, le16, le32, put_be16, put_le16,
  put_le32,
}

pub index-append : (xs ys : Bytes) (n i : ℕ) → n ≡ length xs + i → index (xs ++ ys) n ≡ index ys i
unfolding index
index-append [] ys n i e = ap (index ys) (omega arith)
index-append (x ∷ xs) ys zero i e = absurd (omega arith)
index-append (x ∷ xs) ys (suc n) i e = index-append xs ys n i (omega arith)

pub be16-append : (xs ys : Bytes) (n i : ℕ) → n ≡ length xs + i → be16 (xs ++ ys) n ≡ be16 ys i
unfolding be16
be16-append xs ys n i e =
    rw (index-append xs ys n i e, index-append xs ys (n + 1) (i + 1) (omega arith))

pub le16-append : (xs ys : Bytes) (n i : ℕ) → n ≡ length xs + i → le16 (xs ++ ys) n ≡ le16 ys i
unfolding le16
le16-append xs ys n i e =
    rw (index-append xs ys n i e, index-append xs ys (n + 1) (i + 1) (omega arith))

pub le32-append : (xs ys : Bytes) (n i : ℕ) → n ≡ length xs + i → le32 (xs ++ ys) n ≡ le32 ys i
unfolding le32
le32-append xs ys n i e =
    rw (le16-append xs ys n i e, le16-append xs ys (n + 2) (i + 2) (omega arith))

pub be16-put_be16 : (v : ℕ) (rest : Bytes) → v < 65536 → be16 (put_be16 v ++ rest) 0 ≡ ok v
unfolding be16 index
be16-put_be16 v rest h = ap ok (omega arith)

pub le16-put_le16 : (v : ℕ) (rest : Bytes) → v < 65536 → le16 (put_le16 v ++ rest) 0 ≡ ok v
unfolding le16 index
le16-put_le16 v rest h = ap ok (omega arith)

pub le32-put_le32 : (v : ℕ) (rest : Bytes) → v < 2 ^ 32 → le32 (put_le32 v ++ rest) 0 ≡ ok v
unfolding le32 le16 index
le32-put_le32 v rest h = ap ok (omega arith)

pub le32-put_le32_mod : (v : ℕ) (rest : Bytes) → le32 (put_le32 v ++ rest) 0 ≡ ok (v % 2 ^ 32)
unfolding le32 le16 index
le32-put_le32_mod v rest = ap ok (omega arith)

pub slice_from-append : (xs ys : Bytes) (n : ℕ) → n ≡ length xs → slice_from (xs ++ ys) n ≡ ok ys
slice_from-append xs ys n e = rw e (
    slice_from_ok (xs ++ ys) (length xs) (omega (arith, length-append xs ys))
    ∙ ap ok (drop-append xs ys))

pub slice-append :
    (front mid back : Bytes) (i j : ℕ)
    → i ≡ length front
    → j ≡ length front + length mid
    → slice (front ++ (mid ++ back)) i j ≡ ok mid
slice-append front mid back i j e e' =
    rw (e, e')
      (slice_ok (front ++ (mid ++ back)) (length front) (length front + length mid) (omega arith)
          (omega (arith, length-append front (mid ++ back), length-append mid back))
        ∙ ap ok (rw drop-append (ap (λ n. take n (mid ++ back)) size ∙ take-append mid back)))
  where
    size : length front + length mid - length front ≡ length mid
    size = omega arith
