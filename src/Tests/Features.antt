-- ===== src/Tests/Features.antt =====
-- Runs of mios/prediction/features.py.
use invest.Base.{◌≡◌, ◌<◌, [], ◌∷◌, ◌++◌, length, arith}
use invest.Common.Dates.{Date, date}
use invest.Common.Errors.{ok, err, crash}
use invest.Common.Labels.{monthly}
use invest.Series.Repo.{Table}
use invest.Validation.Scoring.{previous_period}
use invest.Tests.Figures.{whole, figure}
use invest.Prediction.Features.{load, next_period}
use invest.Prediction.Features.Periods.{next_period-previous}
use invest.Prediction.Features.Known.{load-append_later}

next_period-previous_example :
    ((p : Date) × (next_period (date 2026 12 15) monthly ≡ ok p)
      × (date 2026 12 15 < p)
      × (previous_period p ≡ date 2026 12 1))
    × (next_period (date 9999 12 15) monthly ≡ err (crash "ValueError"))
next_period-previous_example =
    next_period-previous 2026 12 15 (omega arith) (omega arith) (omega arith) (omega arith)
      (omega arith) (omega arith)

abbrev known : Table
known = figure 20260701 10 100 ∷ figure 20260801 20 120 ∷ []

abbrev restated : Table
restated = figure 20260801 30 115 ∷ []

load-append_later_run :
    let history = load whole known "ser_us_nfp_level" 25 in
    (load whole (known ++ restated) "ser_us_nfp_level" 25 ≡ history)
    × (length history.values ≡ length history.periods)
load-append_later_run =
    load-append_later whole known restated "ser_us_nfp_level" 25 (omega arith, tt)
