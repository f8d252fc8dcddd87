-- ===== src/Quic/Tests.antt =====
-- Pieces of a CRYPTO stream that come out of order, and the theorems at these inputs.
use mathlib.Core.List.Permᴰ
use socktrail.Base.{
  ℕ, zero, suc, ◌+◌, ◌<◌, ◌≡◌, refl, [], ◌∷◌, slice_from, Bytes, get_or, ok, Yields, arith,
}
use socktrail.Quic.Crypto.{
  find_part, put_part, add_crypto, Part, CryptoStream, PartOrder, empty_stream, pull_parts,
}
use socktrail.Quic.Pull.{PartOf, Agrees, Settled, pull_parts-Settled}
use socktrail.Quic.Prefix.{Unless}
use socktrail.Quic.Complete.{IsPrefix, add_all, add_all-IsPrefix}

abbrev in_order : PartOrder
in_order = record { arrange = λ ps. ps; arrange_perm = Permᴰ.refl }

abbrev hello : Bytes
hello = 1 ∷ 0 ∷ 0 ∷ 2 ∷ 7 ∷ 9 ∷ []

abbrev late : Part
late = record { start = 3; content = 2 ∷ 7 ∷ 9 ∷ [] }

abbrev early : Part
early = record { start = 0; content = 1 ∷ 0 ∷ 0 ∷ 2 ∷ [] }

out_of_order :
    add_all in_order (late ∷ early ∷ []) empty_stream
    ≡ ok (record { crypto = hello; parts = []; pending_size = 0 })
unfolding add_all add_crypto find_part put_part slice_from
out_of_order = refl

late-IsPiece : PartOf hello late
late-IsPiece = record { inside = omega arith; same = same }
  where
    same : (i : ℕ) → i < 3 → get_or (2 ∷ 7 ∷ 9 ∷ []) i 0 ≡ get_or hello (3 + i) 0
    same zero l = refl
    same (suc zero) l = refl
    same (suc (suc zero)) l = refl
    same (suc (suc (suc i))) l = absurd (omega (arith, l))

early-IsPiece : PartOf hello early
early-IsPiece = record { inside = omega arith; same = same }
  where
    same : (i : ℕ) → i < 4 → get_or (1 ∷ 0 ∷ 0 ∷ 2 ∷ []) i 0 ≡ get_or hello (0 + i) 0
    same zero l = refl
    same (suc zero) l = refl
    same (suc (suc zero)) l = refl
    same (suc (suc (suc zero))) l = refl
    same (suc (suc (suc (suc i)))) l = absurd (omega (arith, l))

add_all-IsPrefix_example :
    Unless
      (IsPrefix hello in_order (late ∷ early ∷ []))
      (add_all in_order (late ∷ early ∷ []) empty_stream)
add_all-IsPrefix_example =
    add_all-IsPrefix hello in_order (late ∷ early ∷ []) (late-IsPiece, (early-IsPiece, tt))

abbrev waiting : CryptoStream
waiting = record { crypto = early.content; parts = late ∷ []; pending_size = 3 }

waiting-Agrees : Agrees hello waiting
waiting-Agrees = record { prefix = early-IsPiece; pieces = (late-IsPiece, tt) }

pull_parts-Settled_example : Yields (Settled hello waiting) (pull_parts in_order waiting)
pull_parts-Settled_example = pull_parts-Settled hello in_order waiting waiting-Agrees
