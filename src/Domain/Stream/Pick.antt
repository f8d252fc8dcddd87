-- ===== src/Domain/Stream/Pick.antt =====
-- internal/domain/stream.go: the loop of `drain` over the segments held back, in any order.
use mathlib.Core.List.{Permᴰ}
use socktrail.Base.{
  ℕ, ◌+◌, ◌-◌, ◌≤◌, ◌<◌, ◌≡◌, refl, ap, ◌∙◌, true, false, List, [], ◌∷◌, Option, none, some, length,
  All, arith, inl, inr, Bool-cases,
}
use socktrail.Domain.Stream.State.{diff32, ahead, Segment}
use socktrail.Domain.Stream.Ops.{deliverable, stale, Picked, pick}

-- The bytes held back.
abbrev pub total : List Segment → ℕ
total [] = 0
total (g ∷ gs) = length g.payload + total gs

abbrev pub chosen_bytes : Option Segment → ℕ
chosen_bytes none = 0
chosen_bytes (some g) = length g.payload

abbrev pub chosen_count : Option Segment → ℕ
chosen_count none = 0
chosen_count (some g) = 1

module _ {A : Type 0} where
  pub All-perm : {xs ys : List A} (Q : A → Type 0) → Permᴰ xs ys → All Q ys → All Q xs
  All-perm Q Permᴰ.nil h = h
  All-perm Q (Permᴰ.cons e p) (h, hs) = (rw e h, All-perm Q p hs)
  All-perm Q (Permᴰ.swap e e') (h, (h', hs)) = (rw e h', (rw e' h, hs))
  All-perm Q (Permᴰ.trans p q) h = All-perm Q p (All-perm Q q h)

pub total-perm : {xs ys : List Segment} → Permᴰ xs ys → total xs ≡ total ys
total-perm Permᴰ.nil = refl
total-perm (Permᴰ.cons e p) = omega (arith, total-perm p, ap (λ (g : Segment). length g.payload) e)
total-perm (Permᴰ.swap e e') =
    omega
      (arith, ap (λ (g : Segment). length g.payload) e, ap (λ (g : Segment). length g.payload) e')
total-perm (Permᴰ.trans p q) = total-perm p ∙ total-perm q

-- The loop keeps the count of bytes, and takes at most the chosen segment and stale ones away.
pub record Counts (extra parts : ℕ) (r : Picked) : Type 0 where
  pub bytes_eq : r.bytes ≡ extra + (total r.kept + chosen_bytes r.chosen)
  pub parts_le : length r.kept + chosen_count r.chosen ≤ parts

pub pick-Counts :
    (expected : ℕ) (gs : List Segment) (extra bytes : ℕ)
    → bytes ≡ extra + total gs
    → Counts extra (length gs) (pick expected gs bytes)
unfolding pick
pick-Counts expected [] extra bytes e = record { bytes_eq = omega arith; parts_le = omega arith }
pick-Counts expected (g ∷ gs) extra bytes e = ground (
  arith,
  pick-Counts expected gs extra (bytes - length g.payload),
  pick-Counts expected gs (extra + length g.payload) bytes,
)

pub pick-le :
    (expected : ℕ) (gs : List Segment) (bytes : ℕ) → (pick expected gs bytes).bytes ≤ bytes
unfolding pick
pick-le expected [] bytes = omega arith
pick-le expected (g ∷ gs) bytes =
    ground (arith, pick-le expected gs (bytes - length g.payload), pick-le expected gs bytes)

abbrev pub OfChosen : (Segment → Type 0) → Option Segment → Type 0
OfChosen Q none = Unit {0}
OfChosen Q (some g) = Q g

module _ (Q : Segment → Type 0) (expected : ℕ) where
  -- What holds of all segments held back holds of those that are left, and of the chosen one.
  pub pick-All :
      (gs : List Segment) (bytes : ℕ)
      → All Q gs
      → All Q (pick expected gs bytes).kept × OfChosen Q (pick expected gs bytes).chosen
  unfolding pick
  pick-All [] bytes h = (tt, tt)
  pick-All (g ∷ gs) bytes (h, hs) = elim (Bool-cases (deliverable expected g)) [
    | inl y ↦ rw y (hs, h)
    | inr n ↦ elim (Bool-cases (stale expected g)) [
      | inl y ↦ rw (n, y) (pick-All gs (bytes - length g.payload) hs)
      | inr n' ↦ rw (n, n') (let k = pick-All gs bytes hs in ((h, k.0), k.1))
    ]
  ]

-- The chosen segment reaches from at most `expected` to behind it.
pub pick-deliverable :
    (expected : ℕ) (gs : List Segment) (bytes : ℕ)
    → OfChosen (λ g. deliverable expected g ≡ true) (pick expected gs bytes).chosen
unfolding pick
pick-deliverable expected [] bytes = tt
pick-deliverable expected (g ∷ gs) bytes = elim (Bool-cases (deliverable expected g)) [
  | inl y ↦ rw y y
  | inr n ↦ elim (Bool-cases (stale expected g)) [
    | inl y ↦ rw (n, y) (pick-deliverable expected gs (bytes - length g.payload))
    | inr n' ↦ rw (n, n') (pick-deliverable expected gs bytes)
  ]
]

abbrev pub NonEmpty : Segment → Type 0
NonEmpty g = 0 < length g.payload

-- A segment that is neither delivered nor stale starts ahead.
not_chosen-ahead :
    (expected : ℕ) (g : Segment)
    → NonEmpty g
    → deliverable expected g ≡ false
    → stale expected g ≡ false
    → ahead (diff32 g.seq expected) ≡ true
not_chosen-ahead expected g h n n' = ground arith

-- When nothing is chosen, all that is left starts ahead of `expected`.
pub pick-none-ahead :
    (expected : ℕ) (gs : List Segment) (bytes : ℕ)
    → All NonEmpty gs
    → (pick expected gs bytes).chosen ≡ none
    → All (λ g. ahead (diff32 g.seq expected) ≡ true) (pick expected gs bytes).kept
unfolding pick
pick-none-ahead expected [] bytes h e = tt
pick-none-ahead expected (g ∷ gs) bytes (h, hs) e = elim (Bool-cases (deliverable expected g)) [
  | inl y ↦ absurd (cc (rw (y, pick) at e))
  | inr n ↦ elim (Bool-cases (stale expected g)) [
    | inl y ↦ rw (n, y) (pick-none-ahead expected gs (bytes - length g.payload) hs (rw (n, y) at e))
    | inr n' ↦
        rw (n, n')
          (
            not_chosen-ahead expected g h n n',
            pick-none-ahead expected gs bytes hs (rw (n, n') at e),
          )
  ]
]
