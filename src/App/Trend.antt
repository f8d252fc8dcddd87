-- ===== src/App/Trend.antt =====
-- internal/app/trend.go, trendRing: one sample a second in a ring of 300.
use socktrail.Base.{
  ℕ, ◌+◌, ◌-◌, ◌%◌, min, List, [], ◌∷◌, Option, none, some, get_or, set, replicate, leb, ltb, ◌==◌,
  if◌then◌else◌,
}

abbrev pub trend_seconds : ℕ
trend_seconds = 300

-- The source's `int`: `negsuc n` is -(n + 1).
pub data ℤ : Type 0 where
  pos : ℕ → ℤ
  negsuc : ℕ → ℤ

-- `newest` is `none` where the source has -1.
pub record TrendRing : Type 0 where
  pub samples : List ℕ
  pub count : ℕ
  pub newest : Option ℕ

abbrev pub empty_ring : TrendRing
empty_ring = record { samples = replicate trend_seconds 0; count = 0; newest = none }

unfoldable pub after : Option ℕ → ℕ
after none = 0
after (some n) = (n + 1) % trend_seconds

unfoldable pub capped : ℕ → ℕ
capped total = min total 0xffffffff

-- `add`
unfoldable pub add_sample : ℕ → TrendRing → TrendRing
unfolding after capped
add_sample total t = record t {
  newest = some (after t.newest);
  samples = set t.samples (after t.newest) (capped total);
  count = if ltb t.count trend_seconds then t.count + 1 else t.count;
}

unfoldable pub slot : Option ℕ → ℕ → ℕ
slot none age = 0
slot (some n) age = (n + trend_seconds - age) % trend_seconds

-- `at`, `none` for a sample that is not valid.
unfoldable pub sample_at : ℤ → TrendRing → Option ℕ
unfolding slot
sample_at (negsuc n) t = none
sample_at (pos age) t =
    if leb t.count age then none else some (get_or t.samples (slot t.newest age) 0)

-- `latest`
unfoldable pub latest : TrendRing → ℕ
unfolding slot
latest t = if t.count == 0 then 0 else get_or t.samples (slot t.newest 0) 0

unfoldable pub add_samples : List ℕ → TrendRing → TrendRing
unfolding add_sample
add_samples [] t = t
add_samples (v ∷ vs) t = add_samples vs (add_sample v t)
