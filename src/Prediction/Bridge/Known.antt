-- ===== src/Prediction/Bridge/Known.antt =====
-- `forecast_target` of mios/prediction/bridge.py against rows of later vintages.
use invest.Base.{ℕ, ◌≡◌, Option, none, some, ◌<◌, ◌++◌, refl, ap, List, [], ◌∷◌, All}
use invest.Common.Numeric.{Numeric}
use invest.Common.Dates.{Date}
use invest.Common.Errors.{ok, ◌>>=◌}
use invest.Prediction.Stats.{trailing_mean}
use invest.Series.Repo.{Table}
use invest.Prediction.Features.{next_period}
use invest.Prediction.Features.Known.{load-append_later}
use invest.Prediction.Bridge.{
  DriverSpec, TargetSpec, Assembly, add_reading, driver_reading, history_reading, assemble,
  no_assembly, with_latest, with_baseline, finish, forecast_target,
}

module _ {Float : Type 0} (n : Numeric Float) (table later : Table) (instant : ℕ)
    (h : All (λ r. instant < r.vintage_at) later) where
  driver_reading-append_later :
      (spec : DriverSpec Float)
      → driver_reading n (table ++ later) spec instant ≡ driver_reading n table spec instant
  unfolding driver_reading
  driver_reading-append_later spec =
      ap (history_reading n spec) (load-append_later n.base table later spec.series_id instant h).0

  assemble-append_later :
      (specs : List (DriverSpec Float)) (assembly : Assembly Float)
      → assemble n (table ++ later) instant specs assembly ≡ assemble n table instant specs assembly
  unfolding assemble
  assemble-append_later [] assembly = refl
  assemble-append_later (spec ∷ specs) assembly = rw (driver_reading-append_later spec) (
      assemble-append_later specs
        (add_reading n spec (driver_reading n table spec instant) assembly))

  with_baseline-append_later :
      (spec : TargetSpec Float) (predicted_at : ℕ) (changes : List Float) (latest : Date)
      (baseline : Option Float)
      → with_baseline n (table ++ later) spec instant predicted_at changes latest baseline
        ≡ with_baseline n table spec instant predicted_at changes latest baseline
  with_baseline-append_later spec predicted_at changes latest none = refl
  with_baseline-append_later spec predicted_at changes latest (some baseline) =
      ap
        (λ assembly. do
          period ← next_period latest spec.frequency
          ok (some (finish n spec instant predicted_at baseline changes period assembly)))
        (assemble-append_later spec.drivers (no_assembly n))

  with_latest-append_later :
      (spec : TargetSpec Float) (predicted_at : ℕ) (changes : List Float) (latest : Option Date)
      → with_latest n (table ++ later) spec instant predicted_at changes latest
        ≡ with_latest n table spec instant predicted_at changes latest
  with_latest-append_later spec predicted_at changes none = refl
  with_latest-append_later spec predicted_at changes (some latest) =
      with_baseline-append_later spec predicted_at changes latest
        (trailing_mean n changes spec.baseline_window 3)

  -- Rows whose vintage is after the instant change nothing of a forecast that is made as of that
  -- instant: neither its figures nor its drivers, contradictions, gaps or probabilities, nor whether
  -- there is one.
  pub forecast_target-append_later :
      (spec : TargetSpec Float) (predicted_at : ℕ)
      → forecast_target n (table ++ later) spec instant predicted_at
        ≡ forecast_target n table spec instant predicted_at
  unfolding forecast_target
  forecast_target-append_later spec predicted_at =
      rw ((load-append_later n.base table later spec.series_id instant h).0)
        (with_latest-append_later spec predicted_at _ _)
