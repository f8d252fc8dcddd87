-- ===== src/App/Tests.antt =====
-- A ring of three samples.
use socktrail.Base.{◌≡◌, some, none, ◌∷◌, []}
use socktrail.App.Trend.{pos, negsuc, empty_ring, add_samples, sample_at, latest, capped}
use socktrail.App.History.{history_of, sample_at-add_samples}

sample_at-add_samples_example :
    (sample_at (pos 2) (add_samples (7 ∷ 8 ∷ 9 ∷ []) empty_ring) ≡ some 7)
    × (sample_at (negsuc 2) (add_samples (7 ∷ 8 ∷ 9 ∷ []) empty_ring) ≡ none)
    × (latest (add_samples (7 ∷ 8 ∷ 9 ∷ []) empty_ring) ≡ 9)
unfolding history_of capped
sample_at-add_samples_example = sample_at-add_samples (7 ∷ 8 ∷ 9 ∷ []) 2
