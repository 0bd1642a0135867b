-- ===== src/Prediction/Features/Known.antt =====
-- `load` of mios/prediction/features.py against rows of later vintages.
use invest.Base.{ℕ, ◌≡◌, ◌<◌, ap, none, String, ◌++◌, All, arith, length, map, length-map}
use invest.Common.Decimal.{Decimal}
use invest.Common.Dates.{Date}
use invest.Common.Floats.{FloatOps}
use invest.Series.Repo.{Table, as_of}
use invest.Series.Repo.AsOf.{as_of-append_later}
use invest.Prediction.Features.{usable, load}

module _ {Float : Type 0} (ops : FloatOps Float) where
  -- The history that a forecast reads at an instant has a value for each of its periods, and rows
  -- whose vintage is after the instant change nothing of it: a forecast that is made again as of an
  -- earlier instant reads what it read then.
  pub load-append_later :
      (table later : Table) (series_id : String) (instant : ℕ)
      → All (λ r. instant < r.vintage_at) later
      → let history = load ops table series_id instant in
        (load ops (table ++ later) series_id instant ≡ history)
        × (length history.values ≡ length history.periods)
  unfolding load
  load-append_later table later series_id instant h = (
    ap
        (λ rows. record {
          series_id = series_id;
          periods = map (λ (r : Date × Decimal). r.0) (usable rows);
          values = map (λ (r : Date × Decimal). ops.of_decimal r.1) (usable rows);
        })
        (as_of-append_later table later series_id instant none none h),
    omega (
      arith,
      length-map (λ (r : Date × Decimal). r.0) (usable (as_of table series_id instant none none)),
      length-map (λ (r : Date × Decimal). ops.of_decimal r.1)
          (usable (as_of table series_id instant none none)),
    ),
  )
