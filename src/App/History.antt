-- ===== src/App/History.antt =====
-- internal/app/trend.go, trendRing: the ring and the list of samples.
use socktrail.Base.{
  ℕ, zero, suc, ◌+◌, ◌≤◌, ◌<◌, ◌≡◌, ◌≢◌, refl, ap, ◌∙◌, min, List, [], ◌∷◌, Option, none, some,
  get_or, get_elem?, set, length, length-replicate, ltb, if◌then◌else◌, arith,
}
use socktrail.App.Trend.{
  pos, negsuc, trend_seconds, TrendRing, empty_ring, after, capped, add_sample, add_samples, slot,
  sample_at, latest,
}

length-set : (xs : List ℕ) (i v : ℕ) → length (set xs i v) ≡ length xs
length-set [] i v = refl
length-set (x ∷ xs) zero v = refl
length-set (x ∷ xs) (suc i) v = ap suc (length-set xs i v)

get_or-set_same : (xs : List ℕ) (i v : ℕ) → i < length xs → get_or (set xs i v) i 0 ≡ v
get_or-set_same [] i v h = absurd (omega arith)
get_or-set_same (x ∷ xs) zero v h = refl
get_or-set_same (x ∷ xs) (suc i) v h = get_or-set_same xs i v (omega arith)

get_or-set_other : (xs : List ℕ) (i j v : ℕ) → i ≢ j → get_or (set xs i v) j 0 ≡ get_or xs j 0
get_or-set_other [] i j v h = refl
get_or-set_other (x ∷ xs) zero zero v h = absurd (h refl)
get_or-set_other (x ∷ xs) zero (suc j) v h = refl
get_or-set_other (x ∷ xs) (suc i) zero v h = refl
get_or-set_other (x ∷ xs) (suc i) (suc j) v h = get_or-set_other xs i j v (omega arith)

-- There is a newest sample, in the ring, or none at all.
abbrev pub Fits : ℕ → Option ℕ → Type 0
Fits count none = count ≡ 0
Fits count (some n) = n < trend_seconds

-- The ring holds these samples, newest first.
pub record Holds (history : List ℕ) (t : TrendRing) : Type 0 where
  pub size : length t.samples ≡ trend_seconds
  pub counted : t.count ≡ min trend_seconds (length history)
  pub newest_fits : Fits t.count t.newest
  pub each :
      (age : ℕ) → age < t.count → get_or t.samples (slot t.newest age) 0 ≡ get_or history age 0

empty_ring-Holds : Holds [] empty_ring
unfolding slot
empty_ring-Holds = record {
  size = length-replicate {A = ℕ} trend_seconds 0;
  counted = refl;
  newest_fits = refl;
  each = λ age h. absurd (omega (arith, h));
}

after-fits : (o : Option ℕ) → after o < trend_seconds
unfolding after
after-fits none = omega arith
after-fits (some n) = omega arith

-- Where an older sample stands is where it stood, and the new one is not there.
slot-after :
    (count : ℕ) (o : Option ℕ) (age : ℕ)
    → Fits count o
    → age < count
    → age + 1 < trend_seconds
    → (slot (some (after o)) (age + 1) ≡ slot o age) × (after o ≢ slot o age)
unfolding slot after
slot-after count none age h k l = absurd (omega arith)
slot-after count (some n) age h k l = (omega arith, λ e. absurd (omega (arith, e)))

slot-newest : (n : ℕ) → n < trend_seconds → slot (some n) 0 ≡ n
unfolding slot
slot-newest n h = omega arith

add_sample-Holds :
    (v : ℕ) (history : List ℕ) (t : TrendRing)
    → Holds history t
    → Holds (capped v ∷ history) (add_sample v t)
unfolding add_sample
add_sample-Holds v history t h = record {
  size = length-set t.samples (after t.newest) (capped v) ∙ h.size;
  counted = ground (arith, h.counted);
  newest_fits = after-fits t.newest;
  each = each;
}
  where
    written :
        get_or (set t.samples (after t.newest) (capped v)) (slot (some (after t.newest)) 0) 0
        ≡ capped v
    written =
        ap (λ i. get_or (set t.samples (after t.newest) (capped v)) i 0)
          (slot-newest (after t.newest) (after-fits t.newest))
        ∙ get_or-set_same t.samples (after t.newest) (capped v)
            (omega (arith, after-fits t.newest, h.size))

    older :
        (age : ℕ)
        → age < t.count
        → age + 1 < trend_seconds
        → get_or
            (set t.samples (after t.newest) (capped v))
            (slot (some (after t.newest)) (age + 1))
            0
          ≡ get_or history age 0
    older age k l =
        let (same_slot, apart) = slot-after t.count t.newest age h.newest_fits k l in
        ap (λ i. get_or (set t.samples (after t.newest) (capped v)) i 0) same_slot
        ∙ get_or-set_other t.samples (after t.newest) (slot t.newest age) (capped v) apart
        ∙ h.each age k

    each :
        (age : ℕ)
        → age < (if ltb t.count trend_seconds then t.count + 1 else t.count)
        → get_or (set t.samples (after t.newest) (capped v)) (slot (some (after t.newest)) age) 0
          ≡ get_or (capped v ∷ history) age 0
    each zero k = written
    each (suc age) k =
        ap
          (λ a.
            get_or (set t.samples (after t.newest) (capped v)) (slot (some (after t.newest)) a) 0)
          (omega arith)
        ∙ older age (ground (arith, k)) (ground (arith, k, h.counted))

-- What was added, newest first.
unfoldable pub history_of : List ℕ → List ℕ → List ℕ
history_of history [] = history
history_of history (v ∷ vs) = history_of (capped v ∷ history) vs

add_samples-Holds :
    (vs history : List ℕ) (t : TrendRing)
    → Holds history t
    → Holds (history_of history vs) (add_samples vs t)
unfolding add_samples history_of
add_samples-Holds [] history t h = h
add_samples-Holds (v ∷ vs) history t h =
    add_samples-Holds vs (capped v ∷ history) (add_sample v t) (add_sample-Holds v history t h)

get_elem?-get_or : (xs : List ℕ) (i : ℕ) → i < length xs → get_elem? xs i ≡ some (get_or xs i 0)
get_elem?-get_or [] i h = absurd (omega arith)
get_elem?-get_or (x ∷ xs) zero h = refl
get_elem?-get_or (x ∷ xs) (suc i) h = get_elem?-get_or xs i (omega arith)

get_elem?-none : (xs : List ℕ) (i : ℕ) → length xs ≤ i → get_elem? xs i ≡ none
get_elem?-none [] i h = refl
get_elem?-none (x ∷ xs) zero h = absurd (omega arith)
get_elem?-none (x ∷ xs) (suc i) h = get_elem?-none xs i (omega arith)

latest-Holds : (history : List ℕ) (t : TrendRing) → Holds history t → latest t ≡ get_or history 0 0
unfolding latest
latest-Holds [] t h = ground (arith, h.counted)
latest-Holds (x ∷ xs) t h = ground (arith, h.counted, h.each 0)

-- After any samples, the ring answers for an age below 300 with the sample added that long ago, cut
-- at 2 ^ 32 - 1, or with none if there is no such sample, and with none for every other age, a negative one included; the
-- latest is the last one added, or 0.
pub sample_at-add_samples :
    (vs : List ℕ) (age : ℕ)
    → (sample_at (pos age) (add_samples vs empty_ring)
        ≡ (if ltb age trend_seconds then get_elem? (history_of [] vs) age else none))
      × (sample_at (negsuc age) (add_samples vs empty_ring) ≡ none)
      × (latest (add_samples vs empty_ring) ≡ get_or (history_of [] vs) 0 0)
unfolding sample_at
sample_at-add_samples vs age =
    let h = add_samples-Holds vs [] empty_ring empty_ring-Holds in
    (
      ground (
        arith,
        h.counted,
        h.each age,
        get_elem?-get_or (history_of [] vs) age,
        get_elem?-none (history_of [] vs) age,
      ),
      refl,
      latest-Holds (history_of [] vs) (add_samples vs empty_ring) h,
    )
