-- ===== src/Validation/Metrics.antt =====
-- mios/validation/metrics.py: accuracy by target and horizon, and the calibration of probabilities.
pub mod Samples
pub mod Counts
pub mod Calibration
use invest.Base.{
  ℕ, ◌+◌, Bool, true, false, ◌&&◌, Option, none, some, String, List, [], ◌∷◌, ◌++◌, map, leb,
  str_eq, if◌then◌else◌, filter, length, is_some, sort_by, sort_by_text,
}
use invest.Validation.Scoring.{ScoredForecast}

-- The float operations of the metrics: `fmean`, the product, the power 0.5, a count over a count,
-- and the comparisons `<=`, `<` and `> 0`.
pub record StatisticsOps (Float : Type 0) : Type 0 where
  pub fmean : List Float → Float
  pub times : Float → Float → Float
  pub root : Float → Float
  pub absolute : Float → Float
  pub ratio : ℕ → ℕ → Float
  pub at_most : Float → Float → Bool
  pub below : Float → Float → Bool
  pub is_positive : Float → Bool

-- `MIN_SAMPLE`
abbrev pub min_sample : ℕ
min_sample = 10

-- `_horizon_band`
unfoldable pub horizon_band : ℕ → String
horizon_band days =
    if leb days 3
    then "0-3d"
    else if leb days 10
    then "4-10d"
    else if leb days 30
    then "11-30d"
    else "31d+"

pub record Accuracy (Float : Type 0) : Type 0 where
  pub target_series_id : String
  pub horizon : String
  pub n : ℕ
  pub mae : Option Float
  pub rmse : Option Float
  pub bias : Option Float
  pub baseline_mae : Option Float
  pub skill : Option Float
  pub directional_accuracy : Option Float
  pub sufficient : Bool

pub record CalibrationBin (Float : Type 0) : Type 0 where
  pub lower : Float
  pub upper : Float
  pub n : ℕ
  pub stated : Option Float
  pub realised : Option Float

-- The key and the rows of a group.
abbrev pub Group : Type 0 → Type 0
Group Float = (String × String) × List (ScoredForecast Float)

abbrev pub same_group : String × String → String × String → Bool
same_group a b = str_eq a.0 b.0 && str_eq a.1 b.1

-- A figure, if the sample is sufficient.
abbrev pub when : {A : Type 0} → Bool → A → Option A
when sufficient x = if sufficient then some x else none

abbrev pub hits : List Bool → ℕ
hits [] = 0
hits (hit ∷ rest) = (if hit then 1 else 0) + hits rest

module _ {Float : Type 0} where
  abbrev pub of_target : Option String → ScoredForecast Float → Bool
  of_target none row = true
  of_target (some target) row = str_eq row.target_series_id target

  -- `_rows`: ORDER BY target_period, days_ahead
  unfoldable pub rows : List (ScoredForecast Float) → Option String → List (ScoredForecast Float)
  rows errors target =
      sort_by (λ r. r.target_period)
        (sort_by (λ r. r.days_ahead) (filter (of_target target) errors))

  abbrev pub key_of : ScoredForecast Float → String × String
  key_of row = (row.target_series_id, horizon_band row.days_ahead)

  -- `grouped.setdefault(key, []).append(row)`
  unfoldable pub add_row : ScoredForecast Float → List (Group Float) → List (Group Float)
  unfolding horizon_band
  add_row row [] = (key_of row, row ∷ []) ∷ []
  add_row row ((key, members) ∷ groups) =
      if same_group key (key_of row)
      then (key, members ++ row ∷ []) ∷ groups
      else (key, members) ∷ add_row row groups

  unfoldable pub group_rows : List (Group Float) → List (ScoredForecast Float) → List (Group Float)
  unfolding add_row
  group_rows groups [] = groups
  group_rows groups (row ∷ rest) = group_rows (add_row row groups) rest

  -- `sorted(grouped.items())`: by target, then by horizon.
  unfoldable pub sorted_groups : List (Group Float) → List (Group Float)
  unfolding sort_by_text
  sorted_groups groups = sort_by_text (λ g. g.0.0) (sort_by_text (λ g. g.0.1) groups)

  -- `[r["direction_hit"] for r in rows if ... is not None]`
  abbrev pub calls : List (ScoredForecast Float) → List Bool
  calls [] = []
  calls (r ∷ rest) = elim r.direction_hit [ none ↦ calls rest | some hit ↦ hit ∷ calls rest ]

  -- `upside_prob` of the rows that state one, beside the row.
  abbrev pub stated_of : List (ScoredForecast Float) → List (Float × ScoredForecast Float)
  stated_of [] = []
  stated_of (r ∷ rest) = elim r.upside_prob [
    | none ↦ stated_of rest
    | some p ↦ (p, r) ∷ stated_of rest
  ]

module _ {Float : Type 0} (ops : StatisticsOps Float) where
  abbrev pub rate : List Bool → Option Float
  rate [] = none
  rate (hit ∷ rest) = some (ops.ratio (hits (hit ∷ rest)) (length (hit ∷ rest)))

  unfoldable pub accuracy_of : Group Float → Accuracy Float
  accuracy_of ((target, horizon), members) =
      let errors = map (λ r. r.error) members in
      let enough = leb min_sample (length members) in
      record {
        target_series_id = target;
        horizon = horizon;
        n = length members;
        mae = when enough (ops.fmean (map ops.absolute errors));
        rmse = when enough (ops.root (ops.fmean (map (λ e. ops.times e e) errors)));
        bias = when enough (ops.fmean errors);
        baseline_mae = when enough (ops.fmean (map (λ r. ops.absolute r.baseline_error) members));
        skill = when enough (ops.fmean (map (λ r. r.skill) members));
        directional_accuracy = if enough then rate (calls members) else none;
        sufficient = enough;
      }

  -- `MetricsReader.accuracy`
  unfoldable pub accuracy : List (ScoredForecast Float) → Option String → List (Accuracy Float)
  unfolding accuracy_of sorted_groups group_rows rows
  accuracy errors target = map accuracy_of (sorted_groups (group_rows [] (rows errors target)))

  abbrev pub in_bin : Float → Float → Float × ScoredForecast Float → Bool
  in_bin lower upper (p, row) = ops.at_most lower p && ops.below p upper

  abbrev pub bin_of : Float → Float → List (Float × ScoredForecast Float) → CalibrationBin Float
  bin_of lower upper [] = record {
    lower = lower;
    upper = upper;
    n = 0;
    stated = none;
    realised = none;
  }
  bin_of lower upper (first ∷ rest) =
      let members = first ∷ rest in
      record {
        lower = lower;
        upper = upper;
        n = length members;
        stated = some (ops.fmean (map (λ m. m.0) members));
        realised = some (
            ops.ratio (length (filter (λ m. ops.is_positive m.1.baseline_error) members))
              (length members));
      }

  -- The bins between consecutive bounds, as `CALIBRATION_BINS` is made of 0.0, 0.2, ..., 1.01.
  unfoldable pub bins :
      Float → List Float → List (Float × ScoredForecast Float) → List (CalibrationBin Float)
  bins lower [] stated = []
  bins lower (upper ∷ bounds) stated =
      bin_of lower upper (filter (in_bin lower upper) stated) ∷ bins upper bounds stated

  -- `MetricsReader.calibration`
  unfoldable pub calibration :
      Float → List Float → List (ScoredForecast Float) → Option String → List (CalibrationBin Float)
  unfolding bins rows
  calibration lower bounds errors target = bins lower bounds (stated_of (rows errors target))
