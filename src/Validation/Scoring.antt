-- ===== src/Validation/Scoring.antt =====
-- mios/validation/scoring.py: forecasts scored against the first print of their period.
pub mod Fixed
pub mod Stored
pub mod Rerun
use invest.Base.{
  ℕ, suc, ◌-◌, ◌/◌, Bool, true, false, Option, none, some, String, List, [], ◌∷◌, ◌++◌, ltb, leb,
  ◌==◌, str_eq, if◌then◌else◌, any, filter, last?, is_some, sort_by,
}
use invest.Base.Int.{pos}
use invest.Common.Decimal.{Decimal, finite, decimal_eq}
use invest.Common.Dates.{Date, date, year_of, month_of}
use invest.Common.Errors.{Result, ok, err, crash}
use invest.Common.Floats.{FloatOps}
use invest.Series.Repo.{Observation, Table, revisions, as_of}

pub data Transform : Type 0 where
  pct_change diff : Transform

-- What scoring reads of a `TargetSpec` of config/forecast.yaml.
pub record TargetSpec : Type 0 where
  pub series_id : String
  pub transform : Transform

-- A row of `predictions`, as far as scoring reads it.
pub record Forecast (Float : Type 0) : Type 0 where
  pub forecast_id : String
  pub target_series_id : String
  pub target_period : Date
  pub predicted_at : ℕ
  pub point_value : Option Float
  pub baseline_value : Option Float
  pub upside_prob : Option Float
  pub method_version : String

pub record ScoredForecast (Float : Type 0) : Type 0 where
  pub forecast_id : String
  pub target_series_id : String
  pub target_period : Date
  pub actual : Float
  pub actual_vintage_at : ℕ
  pub point_value : Float
  pub baseline_value : Float
  pub error : Float
  pub baseline_error : Float
  pub skill : Float
  pub direction_hit : Option Bool
  pub upside_prob : Option Float
  pub days_ahead : ℕ
  pub method_version : String

pub record ScoringReport : Type 0 where
  pub scored : ℕ
  pub unresolved : ℕ
  pub already_scored : ℕ

-- The table `forecast_errors` and the report of a run.
pub record Run (Float : Type 0) : Type 0 where
  pub errors : List (ScoredForecast Float)
  pub report : ScoringReport

-- A row without a figure is passed over.
abbrev pub print_or : Option Decimal → ℕ → Option (Decimal × ℕ) → Option (Decimal × ℕ)
print_or none vintage rest = rest
print_or (some v) vintage rest = some (v, vintage)

-- The loop of `first_print` over the vintages of a period, oldest first.
unfoldable pub first_valued : List Observation → ℕ → Option (Decimal × ℕ)
first_valued [] instant = none
first_valued (r ∷ history) instant =
    let rest = first_valued history instant in
    if ltb instant r.vintage_at then none else print_or r.value r.vintage_at rest

-- `first_print`, before the conversion of its value to a float.
unfoldable pub first_print : Table → String → Date → ℕ → Option (Decimal × ℕ)
unfolding first_valued
first_print table series_id period instant = first_valued (revisions table series_id period) instant

-- `_previous_period`, for a period after January of the year 1 (for which `date` raises ValueError;
-- here its previous period is before every date, so that a read up to it is empty)
abbrev pub previous_period : Date → Date
previous_period period =
    if month_of period == 1
    then date (year_of period - 1) 12 1
    else date (year_of period) (month_of period - 1) 1

abbrev pub has_figure : Observation → Bool
has_figure r = is_some r.value

-- `usable[-1].value`
abbrev pub last_value : List Observation → Option Decimal
last_value rows = elim (last? (filter has_figure rows)) [ none ↦ none | some r ↦ r.value ]

-- The value of the latest period before, as it stood at the print's vintage.
unfoldable pub previous_value : Table → String → Date → ℕ → Option Decimal
previous_value table series_id period vintage =
    last_value (as_of table series_id vintage none (some (previous_period period)))

abbrev pub zero_decimal : Decimal
zero_decimal = finite (pos 0) 0

-- `value or Decimal(0)`
abbrev pub or_zero : Decimal → Decimal
or_zero v = if decimal_eq v zero_decimal then zero_decimal else v

module _ {Float : Type 0} (ops : FloatOps Float) where
  -- What follows the reads of `actual_change`.
  abbrev pub change_between : Transform → Decimal × ℕ → Option Decimal → Option (Float × ℕ)
  change_between transform print none = none
  change_between diff (value, vintage) (some before) =
      some (ops.minus (ops.of_decimal value) (ops.of_decimal (or_zero before)), vintage)
  change_between pct_change (value, vintage) (some before) =
      let previous = ops.of_decimal (or_zero before) in
      if ops.is_zero previous
      then none
      else some (ops.minus (ops.divide (ops.of_decimal value) previous) ops.one, vintage)

  abbrev pub change_of_print : Table → TargetSpec → Date → Option (Decimal × ℕ) → Option (Float × ℕ)
  change_of_print table spec period none = none
  change_of_print table spec period (some print) =
      change_between spec.transform print (previous_value table spec.series_id period print.1)

  unfoldable pub actual_change : Table → TargetSpec → Date → ℕ → Option (Float × ℕ)
  unfolding first_print previous_value
  actual_change table spec period instant =
      change_of_print table spec period (first_print table spec.series_id period instant)

  -- No call is neither a hit nor a miss.
  abbrev pub direction : Float → Float → Option Bool
  direction adjustment baseline_error =
      if ops.is_zero adjustment
      then none
      else some (
          if ops.is_positive adjustment
          then ops.is_positive baseline_error
          else if ops.is_positive baseline_error
          then false
          else true)

  abbrev pub microseconds_per_day : ℕ
  microseconds_per_day = 86400000000

  -- `score`: `float(None)` raises.
  abbrev pub score_values :
      Forecast Float → Float → ℕ → Option Float → Option Float → Result (ScoredForecast Float)
  score_values forecast actual vintage none baseline = err (crash "TypeError")
  score_values forecast actual vintage (some point) none = err (crash "TypeError")
  score_values forecast actual vintage (some point) (some baseline) =
      let error = ops.minus actual point in
      let baseline_error = ops.minus actual baseline in
      ok (record {
        forecast_id = forecast.forecast_id;
        target_series_id = forecast.target_series_id;
        target_period = forecast.target_period;
        actual = actual;
        actual_vintage_at = vintage;
        point_value = point;
        baseline_value = baseline;
        error = error;
        baseline_error = baseline_error;
        skill = ops.minus (ops.absolute baseline_error) (ops.absolute error);
        direction_hit = direction (ops.minus point baseline) baseline_error;
        upside_prob = forecast.upside_prob;
        days_ahead = (vintage - forecast.predicted_at) / microseconds_per_day;
        method_version = forecast.method_version;
      })

  unfoldable pub score : Forecast Float → Float → ℕ → Result (ScoredForecast Float)
  score forecast actual vintage =
      score_values forecast actual vintage forecast.point_value forecast.baseline_value

module _ {Float : Type 0} where
  abbrev pub is_done : List (ScoredForecast Float) → String → Bool
  is_done errors forecast_id = any (λ e. str_eq e.forecast_id forecast_id) errors

  -- INSERT ... ON CONFLICT (forecast_id) DO NOTHING
  unfoldable pub store :
      ScoredForecast Float → List (ScoredForecast Float) → List (ScoredForecast Float)
  store scored errors = if is_done errors scored.forecast_id then errors else errors ++ scored ∷ []

  abbrev pub count_unresolved : Run Float → Run Float
  count_unresolved run = record run {
    report = record run.report { unresolved = suc run.report.unresolved };
  }

  abbrev pub count_already : Run Float → Run Float
  count_already run = record run {
    report = record run.report { already_scored = suc run.report.already_scored };
  }

  abbrev pub store_result :
      Result (ScoredForecast Float) → Run Float → Result (Unit {0}) × Run Float
  store_result (err e) run = (err e, run)
  store_result (ok scored) run = (
    ok tt,
    record {
      errors = store scored run.errors;
      report = record run.report { scored = suc run.report.scored };
    },
  )

  -- An exception ends the run; what was stored before it stays.
  abbrev pub and_then :
      Result (Unit {0}) × Run Float
      → (Run Float → Result (Unit {0}) × Run Float)
      → Result (Unit {0}) × Run Float
  and_then (err e, run) rest = (err e, run)
  and_then (ok _, run) rest = rest run

-- The tables that a run only reads, and the configured targets by their series.
module _ {Float : Type 0} (ops : FloatOps Float) (table : Table)
    (targets : String → Option TargetSpec) (instant : ℕ) where
  abbrev pub realised_of : Forecast Float → Option TargetSpec → Option Float → Option (Float × ℕ)
  realised_of forecast none point = none
  realised_of forecast (some spec) none = none
  realised_of forecast (some spec) (some point) =
      actual_change ops table spec forecast.target_period instant

  -- The realised value, or none where the loop counts the forecast as unresolved.
  unfoldable pub realised : Forecast Float → Option (Float × ℕ)
  realised forecast = realised_of forecast (targets forecast.target_series_id) forecast.point_value

  abbrev pub settle :
      Forecast Float → Option (Float × ℕ) → Run Float → Result (Unit {0}) × Run Float
  settle forecast none run = (ok tt, count_unresolved run)
  settle forecast (some (actual, vintage)) run =
      store_result (score ops forecast actual vintage) run

  -- The body of the loop; `done` is `forecast_errors` when the run began.
  unfoldable pub score_one :
      List (ScoredForecast Float) → Forecast Float → Run Float → Result (Unit {0}) × Run Float
  unfolding realised score store
  score_one done forecast run =
      if is_done done forecast.forecast_id
      then (ok tt, count_already run)
      else settle forecast (realised forecast) run

  unfoldable pub score_all :
      List (ScoredForecast Float)
      → List (Forecast Float)
      → Run Float
      → Result (Unit {0}) × Run Float
  unfolding score_one
  score_all done [] run = (ok tt, run)
  score_all done (forecast ∷ pending) run =
      and_then (score_one done forecast run) (score_all done pending)

  -- SELECT * FROM predictions WHERE predicted_at <= as_of ORDER BY predicted_at
  unfoldable pub pending_of : List (Forecast Float) → List (Forecast Float)
  pending_of predictions =
      sort_by (λ f. f.predicted_at) (filter (λ f. leb f.predicted_at instant) predictions)

  -- `Scorer.run`: how it ends, and `forecast_errors` with the report.
  unfoldable pub run :
      List (Forecast Float) → List (ScoredForecast Float) → Result (Unit {0}) × Run Float
  unfolding score_all pending_of
  run predictions errors = score_all errors (pending_of predictions) (record {
    errors = errors;
    report = record { scored = 0; unresolved = 0; already_scored = 0 };
  })
