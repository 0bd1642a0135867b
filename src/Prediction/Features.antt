-- ===== src/Prediction/Features.antt =====
-- mios/prediction/features.py: the history that a forecast reads, and the period that it aims at.
pub mod Periods
pub mod Known
use invest.Base.{
  ℕ, suc, ◌+◌, ◌-◌, ◌/◌, ◌%◌, Bool, true, false, Option, none, some, String, List, [], ◌∷◌, map,
  ltb, leb, ◌==◌, if◌then◌else◌, filter, length, last?,
}
use invest.Common.Decimal.{Decimal}
use invest.Common.Dates.{Date, date, year_of, month_of}
use invest.Common.Errors.{Result, ok, err, crash}
use invest.Common.Floats.{FloatOps}
use invest.Common.Labels.{Frequency, daily, weekly, monthly, quarterly, irregular}
use invest.Series.Repo.{Observation, Table, as_of}
use invest.Validation.Scoring.{Transform, pct_change, diff}

-- `Series`: the periods and values of a series, oldest first.
pub record History (Float : Type 0) : Type 0 where
  pub series_id : String
  pub periods : List Date
  pub values : List Float

-- `usable` of `load`: the periods that have a figure, beside it.
abbrev pub with_figure : Option Decimal → Date → List (Date × Decimal) → List (Date × Decimal)
with_figure none period rest = rest
with_figure (some value) period rest = (period, value) ∷ rest

unfoldable pub usable : List Observation → List (Date × Decimal)
usable [] = []
usable (r ∷ rows) = with_figure r.value r.observation_date (usable rows)

module _ {Float : Type 0} (ops : FloatOps Float) where
  -- `load`
  unfoldable pub load : Table → String → ℕ → History Float
  unfolding usable
  load table series_id instant =
      let rows = usable (as_of table series_id instant none none) in
      record {
        series_id = series_id;
        periods = map (λ (r : Date × Decimal). r.0) rows;
        values = map (λ (r : Date × Decimal). ops.of_decimal r.1) rows;
      }

  abbrev pub change : Float → Float → Float
  change previous value = ops.minus (ops.divide value previous) ops.one

  -- The loops over consecutive values.
  unfoldable pub mom_from : Float → List Float → List Float
  mom_from previous [] = []
  mom_from previous (value ∷ values) =
      let rest = mom_from value values in
      if ops.is_zero previous then rest else change previous value ∷ rest

  unfoldable pub diff_from : Float → List Float → List Float
  diff_from previous [] = []
  diff_from previous (value ∷ values) = ops.minus value previous ∷ diff_from value values

  abbrev pub from_first : (Float → List Float → List Float) → List Float → List Float
  from_first changes [] = []
  from_first changes (value ∷ values) = changes value values

  -- `mom_series` and `diff_series`
  unfoldable pub mom_series : History Float → List Float
  unfolding mom_from
  mom_series history = from_first mom_from history.values

  unfoldable pub diff_series : History Float → List Float
  unfolding diff_from
  diff_series history = from_first diff_from history.values

  unfoldable pub changes_of : History Float → Transform → List Float
  unfolding mom_series diff_series
  changes_of history pct_change = mom_series history
  changes_of history diff = diff_series history

-- `date(year, month, 1)`, which raises after the year 9999
unfoldable pub first_of : ℕ → ℕ → Result Date
first_of year month = if ltb 9999 year then err (crash "ValueError") else ok (date year month 1)

-- `next_period`
unfoldable pub next_period : Date → Frequency → Result Date
unfolding first_of
next_period latest monthly =
    if month_of latest == 12
    then first_of (year_of latest + 1) 1
    else first_of (year_of latest) (month_of latest + 1)
next_period latest quarterly =
    let month = month_of latest + 3 in
    first_of (year_of latest + (month - 1) / 12) ((month - 1) % 12 + 1)
next_period latest frequency = err (crash "ValueError")
