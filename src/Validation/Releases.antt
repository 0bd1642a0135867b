-- ===== src/Validation/Releases.antt =====
-- mios/validation/releases.py: what was published, beside the period before it as it stood then.
pub mod Inserts
pub mod Rerun
pub mod Fixed
use invest.Base.{
  ℕ, suc, ◌-◌, Bool, true, false, ◌&&◌, Option, none, some, String, List, [], ◌∷◌, ◌++◌, map, ◌==◌,
  str_eq, if◌then◌else◌, any, filter,
}
use invest.Common.Decimal.{Decimal}
use invest.Common.Dates.{Date}
use invest.Series.Repo.{Observation, SeriesSpec, Table, as_of}
use invest.Series.Normalize.{spec_of}
use invest.Validation.Scoring.{first_print, previous_period, has_figure, last_value}

-- A row of `releases`. Its identifier and its URL are texts made of the other fields.
pub record Release : Type 0 where
  pub series_id : String
  pub period : Date
  pub release_at : ℕ
  pub actual : Decimal
  pub previous : Decimal
  pub revised_previous : Option Decimal
  pub source_id : String
  pub provider_code : String

pub record ReleaseReport : Type 0 where
  pub written : ℕ
  pub already_recorded : ℕ
  pub unresolved : ℕ

-- The table `releases` and the report of a run.
pub record Run : Type 0 where
  pub releases : List Release
  pub report : ReleaseReport

-- `_value_at`
unfoldable pub value_at : Table → String → Date → ℕ → Option Decimal
value_at table series_id period instant =
    last_value (as_of table series_id instant (some period) (some period))

-- `_just_before`: a microsecond earlier.
abbrev pub just_before : ℕ → ℕ
just_before instant = instant - 1

-- `_periods`
unfoldable pub periods : Table → String → ℕ → List Date
periods table series_id instant =
    map (λ r. r.observation_date) (filter has_figure (as_of table series_id instant none none))

abbrev pub same_release : String → Date → Release → Bool
same_release series_id period r = str_eq r.series_id series_id && (r.period == period)

-- `(series_id, period) in recorded`
abbrev pub is_recorded : List Release → String → Date → Bool
is_recorded releases series_id period = any (same_release series_id period) releases

-- INSERT ... ON CONFLICT (series_id, period) DO NOTHING
unfoldable pub insert_release : Release → List Release → List Release
insert_release r releases =
    if is_recorded releases r.series_id r.period then releases else releases ++ r ∷ []

-- The call of `_record` with what the loop does on its result.
abbrev pub record_release : Option Release → Run → Run
record_release none run = record run {
  report = record run.report { unresolved = suc run.report.unresolved };
}
record_release (some r) run = record {
  releases = insert_release r run.releases;
  report = record run.report { written = suc run.report.written };
}

abbrev pub count_already : Run → Run
count_already run = record run {
  report = record run.report { already_recorded = suc run.report.already_recorded };
}

-- `Decimal(str(float(value)))`
module _ (through_float : Decimal → Decimal) where
  -- What follows the reads of `_record`: the row, or none where it returns False.
  abbrev pub release_from :
      String
      → Date
      → Decimal × ℕ
      → Option Decimal
      → Option Decimal
      → Option SeriesSpec
      → Option Release
  release_from series_id period print none after spec = none
  release_from series_id period print (some before) after none = none
  release_from series_id period (actual, vintage) (some before) after (some spec) = some (record {
    series_id = series_id;
    period = period;
    release_at = vintage;
    actual = through_float actual;
    previous = before;
    revised_previous = after;
    source_id = spec.source_id;
    provider_code = spec.provider_code;
  })

  abbrev pub release_of_print :
      Table → List SeriesSpec → String → Date → Option (Decimal × ℕ) → Option Release
  release_of_print table registry series_id period none = none
  release_of_print table registry series_id period (some print) =
      release_from series_id period print
        (value_at table series_id (previous_period period) (just_before print.1))
        (value_at table series_id (previous_period period) print.1) (spec_of series_id registry)

  unfoldable pub release_of : Table → List SeriesSpec → String → Date → ℕ → Option Release
  unfolding first_print value_at spec_of
  release_of table registry series_id period instant =
      release_of_print table registry series_id period (first_print table series_id period instant)

  module _ (table : Table) (registry : List SeriesSpec) (instant : ℕ) where
    -- The body of the loop; `recorded` is the table when the run began.
    unfoldable pub record_one : List Release → String → Date → Run → Run
    unfolding release_of insert_release
    record_one recorded series_id period run =
        if is_recorded recorded series_id period
        then count_already run
        else record_release (release_of table registry series_id period instant) run

    unfoldable pub record_periods : List Release → String → List Date → Run → Run
    unfolding record_one
    record_periods recorded series_id [] run = run
    record_periods recorded series_id (period ∷ ps) run =
        record_periods recorded series_id ps (record_one recorded series_id period run)

    unfoldable pub record_series : List Release → List String → Run → Run
    unfolding record_periods periods
    record_series recorded [] run = run
    record_series recorded (series_id ∷ ids) run =
        record_series recorded ids
          (record_periods recorded series_id (periods table series_id instant) run)

    -- `ReleaseBuilder.run`
    unfoldable pub run : List String → List Release → Run
    unfolding record_series
    run series_ids releases = record_series releases series_ids (record {
      releases = releases;
      report = record { written = 0; already_recorded = 0; unresolved = 0 };
    })
