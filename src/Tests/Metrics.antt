-- ===== src/Tests/Metrics.antt =====
-- Runs of mios/validation/metrics.py, with natural numbers in the place of floats.
use invest.Base.{
  ℕ, ◌+◌, ◌*◌, ◌/◌, ◌≡◌, refl, true, none, some, String, List, [], ◌∷◌, ltb, leb, length, All,
  All-intro, arith, not, ◌≤◌,
}
use invest.Validation.Scoring.{ScoredForecast}
use invest.Validation.Metrics.{
  Accuracy, StatisticsOps, accuracy, calibration, horizon_band, rows, stated_of,
}
use invest.Validation.Metrics.Counts.{AreApart, sample, total, IsGated, accuracy-IsGated}
use invest.Validation.Metrics.Calibration.{
  IsOrdered, total_n, count_from, last_bound, calibration_shares,
}

abbrev sum : List ℕ → ℕ
sum [] = 0
sum (x ∷ xs) = x + sum xs

abbrev natural : StatisticsOps ℕ
natural = record {
  fmean = λ xs. sum xs / length xs;
  times = λ a b. a * b;
  root = λ a. a;
  absolute = λ a. a;
  ratio = λ a b. a * 100 / b;
  at_most = leb;
  below = ltb;
  is_positive = ltb 0;
}

abbrev scored : String → ℕ → ℕ → ScoredForecast ℕ
scored forecast_id days_ahead upside_prob = record {
  forecast_id = forecast_id;
  target_series_id = "ser_us_nfp_level";
  target_period = 20260801;
  actual = 120;
  actual_vintage_at = 20;
  point_value = 115;
  baseline_value = 110;
  error = 5;
  baseline_error = 10;
  skill = 5;
  direction_hit = some true;
  upside_prob = some upside_prob;
  days_ahead = days_ahead;
  method_version = "v1";
}

abbrev errors : List (ScoredForecast ℕ)
errors = scored "fc_1" 2 15 ∷ scored "fc_2" 12 70 ∷ []

bands : horizon_band 3 ≡ "0-3d"
unfolding horizon_band
bands = refl

accuracy-IsGated_example :
    (total natural (accuracy natural errors none) ≡ 2)
    × AreApart natural (accuracy natural errors none)
    × All
        (λ (a : Accuracy ℕ). a.n ≡ length (sample natural errors a.target_series_id a.horizon))
        (accuracy natural errors none)
    × All (IsGated natural) (accuracy natural errors none)
accuracy-IsGated_example = accuracy-IsGated natural errors none

abbrev bounds : List ℕ
bounds = 20 ∷ 40 ∷ 60 ∷ 80 ∷ 101 ∷ []

at_bound :
    (lower upper : ℕ) (m : ℕ × ScoredForecast ℕ)
    → lower ≤ upper
    → (ltb m.0 upper ≡ not (leb upper m.0)) × (leb upper m.0 ≡ true → leb lower m.0 ≡ true)
at_bound lower upper m le = (ground arith, λ h. ground (arith, h))

ordered : (stated : List (ℕ × ScoredForecast ℕ)) → IsOrdered natural 0 bounds stated
ordered stated = (
  All-intro stated (λ m. at_bound 0 20 m (omega arith)),
  (
    All-intro stated (λ m. at_bound 20 40 m (omega arith)),
    (
      All-intro stated (λ m. at_bound 40 60 m (omega arith)),
      (
        All-intro stated (λ m. at_bound 60 80 m (omega arith)),
        (All-intro stated (λ m. at_bound 80 101 m (omega arith)), tt),
      ),
    ),
  ),
)

calibration_shares_run :
    total_n natural (calibration natural 0 bounds errors none)
      + count_from natural (last_bound natural 0 bounds) (stated_of (rows errors none))
    ≡ count_from natural 0 (stated_of (rows errors none))
calibration_shares_run =
    calibration_shares natural 0 bounds errors none (ordered (stated_of (rows errors none)))
