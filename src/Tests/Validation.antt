-- ===== src/Tests/Validation.antt =====
-- Runs of mios/validation/scoring.py and mios/validation/releases.py.
use invest.Base.{
  true, ◌≡◌, refl, Option, none, some, String, [], ◌∷◌, ◌++◌, Begins, arith, sort_by, insert_by,
}
use invest.Base.Int.{ℤ, pos, ◌-ℤ◌}
use invest.Common.Decimal.{finite, decimal_eq}
use invest.Common.Errors.{Result, ok}
use invest.Series.Repo.{SeriesSpec, Table, revisions, as_of}
use invest.Tests.Figures.{whole, figure}
use invest.Validation.Scoring.{diff, TargetSpec, Forecast, Run, actual_change, run}
use invest.Validation.Scoring.Fixed.{actual_change_fixed}
use invest.Validation.Scoring.Rerun.{run-Idle, run-Begins}
use invest.Validation.Releases
use invest.Validation.Releases.{release_of}
use invest.Validation.Releases.Fixed.{release_of_fixed, release_of_no_prior}
use invest.Validation.Releases.Rerun.{run_twice}

-- July at 100, August first printed as 120; later August is restated.
abbrev published : Table
published = figure 20260701 10 100 ∷ figure 20260801 20 120 ∷ []

abbrev restated : Table
restated = figure 20260801 30 115 ∷ figure 20260701 30 90 ∷ []

abbrev payrolls : TargetSpec
payrolls = record { series_id = "ser_us_nfp_level"; transform = diff }

actual_change_fixed_example :
    actual_change whole (published ++ restated) payrolls 20260801 40 ≡ some (pos 20, 20)
unfolding actual_change revisions sort_by insert_by as_of ◌-ℤ◌ decimal_eq
actual_change_fixed_example =
    actual_change_fixed whole published restated payrolls 20260801 25 40 (pos 20, 20)
      (omega arith, (omega arith, tt)) (omega arith) refl

abbrev forecast : Forecast ℤ
forecast = record {
  forecast_id = "fc_1";
  target_series_id = "ser_us_nfp_level";
  target_period = 20260801;
  predicted_at = 5;
  point_value = some (pos 15);
  baseline_value = some (pos 10);
  upside_prob = none;
  method_version = "v1";
}

abbrev targets : String → Option TargetSpec
targets series_id = some payrolls

abbrev first : Result (Unit {0}) × Run ℤ
first = run whole published targets 25 (forecast ∷ []) []

abbrev first_run : Run ℤ
first_run = first.1

scores_one : first_run.report.scored ≡ 1
unfolding run sort_by insert_by actual_change revisions as_of
scores_one = refl

run-Idle_example :
    let again = run whole published targets 25 (forecast ∷ []) first_run.errors in
    (again.0 ≡ ok tt) × (again.1.errors ≡ first_run.errors) × (again.1.report.scored ≡ 0)
unfolding run sort_by insert_by actual_change revisions as_of
run-Idle_example = run-Idle whole published targets 25 (forecast ∷ []) [] first_run refl

run-Begins_run : Begins [] first_run.errors
run-Begins_run = run-Begins whole published targets 25 (forecast ∷ []) []

abbrev nfp : SeriesSpec
nfp = record {
  series_id = "ser_us_nfp_level";
  source_id = "src_fred";
  provider_code = "PAYEMS";
  parser = "fred";
  category = "inflation";
  revisable = true;
}

abbrev august : Releases.Release
august = record {
  series_id = "ser_us_nfp_level";
  period = 20260801;
  release_at = 20;
  actual = finite (pos 120) 0;
  previous = finite (pos 100) 0;
  revised_previous = some (finite (pos 100) 0);
  source_id = "src_fred";
  provider_code = "PAYEMS";
}

release_of_fixed_example :
    release_of (λ d. d) (published ++ restated) (nfp ∷ []) "ser_us_nfp_level" 20260801 40
    ≡ some august
unfolding release_of revisions sort_by insert_by as_of
release_of_fixed_example =
    release_of_fixed (λ d. d) published restated (nfp ∷ []) "ser_us_nfp_level" 20260801 25 40 august
      (omega arith, (omega arith, tt)) (omega arith) refl

-- The second quarter of a quarterly series, with the first in the table.
abbrev quarters : Table
quarters = figure 20260101 10 100 ∷ figure 20260401 20 120 ∷ []

release_of_no_prior_run :
    release_of (λ d. d) quarters (nfp ∷ []) "ser_us_nfp_level" 20260401 25 ≡ none
release_of_no_prior_run =
    release_of_no_prior (λ d. d) quarters (nfp ∷ []) "ser_us_nfp_level" 20260401 25
      (refl, (refl, tt))

abbrev recorded : Releases.Run
recorded = Releases.run (λ d. d) published (nfp ∷ []) 25 ("ser_us_nfp_level" ∷ []) []

run_twice_example :
    let twice =
      Releases.run (λ d. d) published (nfp ∷ []) 25 ("ser_us_nfp_level" ∷ []) recorded.releases in
    Begins [] recorded.releases × (twice.releases ≡ recorded.releases) × (twice.report.written ≡ 0)
run_twice_example = run_twice (λ d. d) published (nfp ∷ []) 25 ("ser_us_nfp_level" ∷ []) []
