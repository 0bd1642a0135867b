-- ===== src/Prediction/Repo.antt =====
-- mios/prediction/repo.py: the table `predictions`, the list of its rows in the order of insertion.
pub mod Forever
use invest.Base.{
  ℕ, Bool, ◌&&◌, Option, none, some, String, List, [], ◌∷◌, map, leb, ltb, ◌==◌, str_eq, filter,
  sort_by, sort_by_text, if◌then◌else◌,
}
use invest.Common.Dates.{Date}
use invest.Common.Errors.{Result}
use invest.Storage.Rows.{insert_once, insert_each, find_id}
use invest.Storage.Newest.{newest_where, last_of_each}
use invest.Prediction.Bridge.{Forecast}
use invest.Validation.Scoring.{ScoredForecast}

-- A row, with its identifier.
pub record StoredForecast (Float : Type 0) : Type 0 where
  pub forecast_id : String
  pub forecast : Forecast Float

module _ {Float : Type 0} where
  abbrev pub forecast_id_of : StoredForecast Float → String
  forecast_id_of r = r.forecast_id

  abbrev pub target_of : StoredForecast Float → String
  target_of r = r.forecast.target_series_id

  abbrev pub period_of : StoredForecast Float → Date
  period_of r = r.forecast.target_period

  abbrev pub predicted_at_of : StoredForecast Float → ℕ
  predicted_at_of r = r.forecast.predicted_at

  abbrev pub is_about : String → Date → StoredForecast Float → Bool
  is_about target_series_id target_period r =
      str_eq (target_of r) target_series_id && (period_of r == target_period)

  -- DISTINCT ON (target_series_id, target_period)
  abbrev pub same_target : StoredForecast Float → StoredForecast Float → Bool
  same_target a b = is_about (target_of b) (period_of b) a

  -- UNIQUE (target_series_id, target_period, predicted_at)
  abbrev pub same_opinion : StoredForecast Float → StoredForecast Float → Bool
  same_opinion a b = same_target a b && (predicted_at_of a == predicted_at_of b)

  -- `save`: the table, and whether the forecast is new.
  unfoldable pub save :
      List (StoredForecast Float) → StoredForecast Float → List (StoredForecast Float) × Result Bool
  save table forecast = insert_once forecast_id_of same_opinion table forecast

  -- One call of `save` after another.
  unfoldable pub save_each :
      List (StoredForecast Float) → List (StoredForecast Float) → List (StoredForecast Float)
  save_each table forecasts = insert_each forecast_id_of same_opinion table forecasts

  unfoldable pub get : List (StoredForecast Float) → String → Option (StoredForecast Float)
  get table forecast_id = find_id forecast_id_of forecast_id table

  unfoldable pub vintages :
      List (StoredForecast Float) → String → Date → List (StoredForecast Float)
  vintages table target_series_id target_period =
      sort_by predicted_at_of (filter (is_about target_series_id target_period) table)

  -- ORDER BY target_series_id, target_period, predicted_at
  abbrev pub in_order : List (StoredForecast Float) → List (StoredForecast Float)
  in_order rows = sort_by_text target_of (sort_by period_of (sort_by predicted_at_of rows))

  unfoldable pub latest_per_target : List (StoredForecast Float) → ℕ → List (StoredForecast Float)
  latest_per_target table as_of =
      last_of_each same_target (in_order (filter (λ r. leb (predicted_at_of r) as_of) table))

  abbrev pub is_before : String → Date → ℕ → StoredForecast Float → Bool
  is_before target_series_id target_period before r =
      is_about target_series_id target_period r && ltb (predicted_at_of r) before

  unfoldable pub previous :
      List (StoredForecast Float) → String → Date → ℕ → Option (StoredForecast Float)
  previous table target_series_id target_period before =
      newest_where predicted_at_of (is_before target_series_id target_period before) table

  -- LEFT JOIN forecast_errors USING (forecast_id)
  unfoldable pub error_of : String → List (ScoredForecast Float) → Option (ScoredForecast Float)
  error_of forecast_id [] = none
  error_of forecast_id (e ∷ errors) =
      let rest = error_of forecast_id errors in
      if str_eq e.forecast_id forecast_id then some e else rest

  unfoldable pub all_with_scores :
      List (StoredForecast Float)
      → List (ScoredForecast Float)
      → List (StoredForecast Float × Option (ScoredForecast Float))
  unfolding error_of
  all_with_scores table errors = map (λ r. (r, error_of r.forecast_id errors)) (in_order table)
