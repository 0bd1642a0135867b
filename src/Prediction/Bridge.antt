-- ===== src/Prediction/Bridge.antt =====
-- mios/prediction/bridge.py: a forecast of a target from the naive baseline and its drivers. The texts
-- of rationales, contradictions and gaps are left out; what each is about is kept.
pub mod Drivers
pub mod Sound
pub mod Known
use invest.Base.{
  zero, suc, ℕ, ◌+◌, ◌-◌, ◌*◌, Bool, true, false, not, ◌&&◌, ◌||◌, Option, none, some, String, List,
  [], ◌∷◌, ◌++◌, map, ltb, leb, if◌then◌else◌, filter, length, last?,
}
use invest.Base.Int.{ℤ, pos, negsuc}
use invest.Common.Dates.{Date}
use invest.Common.Errors.{Result, ok, ◌>>=◌}
use invest.Common.Labels.{Frequency}
use invest.Common.Numeric.{Numeric, literal, negate, clamp}
use invest.Series.Repo.{Table}
use invest.Validation.Scoring.{Transform}
use invest.Prediction.Features.{History, load, mom_series, diff_series, changes_of, next_period}
use invest.Prediction.Stats.{
  min_history, min_error_sample, deviation_from_trend, zscore, trailing_mean, baseline_error_spread,
  directional_probabilities, confidence_from,
}

-- `DriverMode`, and what a driver's values are turned into.
pub data DriverMode : Type 0 where
  elastic standard : DriverMode

pub data DriverTransform : Type 0 where
  pct_change diff level : DriverTransform

pub record DriverSpec (Float : Type 0) : Type 0 where
  pub series_id : String
  pub label : String
  pub mode : DriverMode
  pub weight : Float
  pub transform : DriverTransform
  pub window : ℕ

pub record TargetSpec (Float : Type 0) : Type 0 where
  pub series_id : String
  pub frequency : Frequency
  pub transform : Transform
  pub baseline_window : ℕ
  pub max_adjustment : Float
  pub drivers : List (DriverSpec Float)

pub record Driver (Float : Type 0) : Type 0 where
  pub series_id : String
  pub label : String
  pub value : Float
  pub weight : Float
  pub contribution : Float

-- What a line of `data_gaps` is about.
pub data Gap : Type 0 where
  short_history no_change_history no_spread : String → Gap
  capped no_error_spread : Gap

pub record Forecast (Float : Type 0) : Type 0 where
  pub target_series_id : String
  pub target_period : Date
  pub predicted_at : ℕ
  pub as_of : ℕ
  pub point_value : Float
  pub baseline_value : Float
  pub upside_prob : Option Float
  pub downside_prob : Option Float
  pub confidence : Float
  pub drivers : List (Driver Float)
  pub contradictions : List (Driver Float)
  pub data_gaps : List Gap

-- `_Assembly`
pub record Assembly (Float : Type 0) : Type 0 where
  pub drivers : List (Driver Float)
  pub gaps : List Gap

-- A driver's reading, or why there is none.
pub data Reading (Float : Type 0) : Type 0 where
  reading : Float → Reading Float
  gap : Gap → Reading Float

module _ {Float : Type 0} (n : Numeric Float) where
  abbrev pub or_gap : Gap → Option Float → Reading Float
  or_gap g none = gap g
  or_gap g (some x) = reading x

  -- `_standardised_input`
  unfoldable pub standardised_input : History Float → DriverTransform → List Float
  standardised_input history pct_change = mom_series n.base history
  standardised_input history diff = diff_series n.base history
  standardised_input history level = history.values

  abbrev pub reading_of : DriverMode → DriverSpec Float → History Float → Reading Float
  reading_of elastic driver history =
      or_gap (no_change_history driver.series_id)
        (deviation_from_trend n (mom_series n.base history) driver.window min_history)
  reading_of standard driver history =
      or_gap (no_spread driver.series_id)
        (zscore n (standardised_input history driver.transform) min_history)

  abbrev pub history_reading : DriverSpec Float → History Float → Reading Float
  history_reading driver history =
      if ltb (length history.values) min_history
      then gap (short_history driver.series_id)
      else reading_of driver.mode driver history

  -- `_driver_reading`
  unfoldable pub driver_reading : Table → DriverSpec Float → ℕ → Reading Float
  unfolding standardised_input
  driver_reading table driver instant =
      history_reading driver (load n.base table driver.series_id instant)

  abbrev pub add_driver : DriverSpec Float → Float → Assembly Float → Assembly Float
  add_driver spec x assembly = record assembly {
    drivers =
        assembly.drivers
        ++ record {
          series_id = spec.series_id;
          label = spec.label;
          value = n.rounded 6 x;
          weight = spec.weight;
          contribution = n.rounded 6 (n.times x spec.weight);
        }
          ∷ [];
  }

  abbrev pub add_gap : Gap → Assembly Float → Assembly Float
  add_gap g assembly = record assembly { gaps = assembly.gaps ++ g ∷ [] }

  abbrev pub add_reading : DriverSpec Float → Reading Float → Assembly Float → Assembly Float
  add_reading spec (gap g) assembly = add_gap g assembly
  add_reading spec (reading x) assembly = add_driver spec x assembly

  -- The loop over the drivers.
  unfoldable pub assemble : Table → ℕ → List (DriverSpec Float) → Assembly Float → Assembly Float
  assemble table instant [] assembly = assembly
  assemble table instant (spec ∷ specs) assembly =
      assemble table instant specs (add_reading spec (driver_reading table spec instant) assembly)

  abbrev pub contributions : Assembly Float → List Float
  contributions assembly = map (λ (d : Driver Float). d.contribution) assembly.drivers

  -- `capped`
  abbrev pub cap : TargetSpec Float → Float → Float
  cap spec adjustment = clamp n (negate n spec.max_adjustment) spec.max_adjustment adjustment

  abbrev pub note_capped : Float → Float → Assembly Float → Assembly Float
  note_capped capped_value adjustment assembly =
      if n.equal capped_value adjustment then assembly else add_gap capped assembly

  abbrev pub note_spread : Option Float → Assembly Float → Assembly Float
  note_spread none assembly = add_gap no_error_spread assembly
  note_spread (some spread) assembly = assembly

  -- The sign of a number: `1`, `-1` or `0`.
  unfoldable pub direction : Float → ℤ
  direction x =
      if n.less (literal n 0 0) x
      then pos 1
      else if n.less x (literal n 0 0)
      then negsuc 0
      else pos 0

  abbrev pub opposes : ℤ → ℤ → Bool
  opposes (pos zero) d = false
  opposes (pos (suc k)) (negsuc j) = true
  opposes (negsuc k) (pos (suc j)) = true
  opposes a b = false

  -- The drivers that pull against the net call with some force.
  unfoldable pub contradictions_of :
      TargetSpec Float → Float → List (Driver Float) → List (Driver Float)
  unfolding direction
  contradictions_of spec capped_value drivers =
      let material = n.times spec.max_adjustment (literal n 5 2) in
      filter
        (λ (d : Driver Float).
          opposes (direction capped_value) (direction d.contribution)
          && not (n.less (n.base.absolute d.contribution) material))
        drivers

  abbrev pub no_assembly : Assembly Float
  no_assembly = record { drivers = []; gaps = [] }

  abbrev pub forecast_from :
      TargetSpec Float
      → ℕ
      → ℕ
      → Float
      → List Float
      → Date
      → Assembly Float
      → Float
      → Option Float
      → Forecast Float
  forecast_from spec instant predicted_at baseline changes period assembly capped_value spread =
      let (upside, downside) = directional_probabilities n capped_value spread in
      let available = length assembly.drivers in
      record {
        target_series_id = spec.series_id;
        target_period = period;
        predicted_at = predicted_at;
        as_of = instant;
        point_value = n.rounded 6 (n.plus baseline capped_value);
        baseline_value = n.rounded 6 baseline;
        upside_prob = upside;
        downside_prob = downside;
        confidence =
            confidence_from n available (length spec.drivers - available) (length changes)
              (spec.baseline_window * 2);
        drivers = assembly.drivers;
        contradictions = contradictions_of spec capped_value assembly.drivers;
        data_gaps = assembly.gaps;
      }

  -- What follows the drivers.
  unfoldable pub finish :
      TargetSpec Float → ℕ → ℕ → Float → List Float → Date → Assembly Float → Forecast Float
  unfolding contradictions_of
  finish spec instant predicted_at baseline changes period assembly =
      let adjustment = n.total (contributions assembly) in
      let capped_value = cap spec adjustment in
      let spread = baseline_error_spread n changes spec.baseline_window min_error_sample in
      forecast_from spec instant predicted_at baseline changes period
        (note_spread spread (note_capped capped_value adjustment assembly)) capped_value spread

  -- The target's last period and its baseline, or nothing to forecast from.
  abbrev pub with_baseline :
      Table
      → TargetSpec Float
      → ℕ
      → ℕ
      → List Float
      → Date
      → Option Float
      → Result (Option (Forecast Float))
  with_baseline table spec instant predicted_at changes latest none = ok none
  with_baseline table spec instant predicted_at changes latest (some baseline) = do
    period ← next_period latest spec.frequency
    ok (
        some (
          finish spec instant predicted_at baseline changes period
            (assemble table instant spec.drivers no_assembly)))

  abbrev pub with_latest :
      Table → TargetSpec Float → ℕ → ℕ → List Float → Option Date → Result (Option (Forecast Float))
  with_latest table spec instant predicted_at changes none = ok none
  with_latest table spec instant predicted_at changes (some latest) =
      with_baseline table spec instant predicted_at changes latest
        (trailing_mean n changes spec.baseline_window 3)

  -- `forecast_target`; the identifier, made of the target and both dates, and the validators of the
  -- record are left out.
  unfoldable pub forecast_target :
      Table → TargetSpec Float → ℕ → ℕ → Result (Option (Forecast Float))
  forecast_target table spec instant predicted_at =
      let target = load n.base table spec.series_id instant in
      with_latest table spec instant predicted_at (changes_of n.base target spec.transform)
        (last? target.periods)
