-- ===== src/Tests/Stored.antt =====
-- Runs of mios/prediction/repo.py and of mios/analysis/repo.py.
use invest.Base.{
  ℕ, ◌≡◌, refl, [], ◌∷◌, none, arith, ◌==◌, if◌then◌else◌, String, not, Begins, false,
}
use invest.Base.Int.{ℤ, pos}
use invest.Common.Dates.{Date, date}
use invest.Common.Errors.{ok}
use invest.Prediction.Bridge.{Forecast}
use invest.Prediction.Repo.{
  StoredForecast, save_each, save, get, latest_per_target, previous, forecast_id_of,
  predicted_at_of, is_before,
}
use invest.Prediction.Repo.Forever.{get-save_each, saved_later, previous-IsNewestOf}
use invest.Storage.Rows.{has_id, insert_once}
use invest.Storage.Newest.{IsNewestOf}
use invest.Analysis.Repo.{StoredScore, as_of_of, is_at, stood_before, latest, all_latest}
use invest.Analysis.Repo.Kept.{latest-IsNewestOf}
use invest.Analysis.Repo as Scores

abbrev opinion : ℕ → ℕ → Forecast ℤ
opinion predicted_at point = record {
  target_series_id = "ser_us_nfp_level";
  target_period = date 2026 6 1;
  predicted_at = predicted_at;
  as_of = predicted_at;
  point_value = pos point;
  baseline_value = pos 150;
  upside_prob = none;
  downside_prob = none;
  confidence = pos 1;
  drivers = [];
  contradictions = [];
  data_gaps = [];
}

-- Days begin at multiples of 10.
abbrev name : String → Date → ℕ → String
name target period predicted_at =
    if predicted_at == 27
    then "fc_2026-06-02_us-nfp-level-2026-06-01"
    else "fc_2026-06-03_us-nfp-level-2026-06-01"

abbrev first_opinion : StoredForecast ℤ
first_opinion = record {
  forecast_id = "fc_2026-06-02_us-nfp-level-2026-06-01";
  forecast = opinion 27 160;
}

abbrev second_opinion : StoredForecast ℤ
second_opinion = record {
  forecast_id = "fc_2026-06-03_us-nfp-level-2026-06-01";
  forecast = opinion 37 170;
}

abbrev changed_opinion : StoredForecast ℤ
changed_opinion = record {
  forecast_id = "fc_2026-06-02_us-nfp-level-2026-06-01";
  forecast = opinion 27 180;
}

get-save_each_example :
    let after = save_each (first_opinion ∷ []) (changed_opinion ∷ second_opinion ∷ []) in
    Begins (first_opinion ∷ []) after
    × (get after "fc_2026-06-02_us-nfp-level-2026-06-01"
        ≡ get
            (first_opinion ∷ changed_opinion ∷ second_opinion ∷ [])
            "fc_2026-06-02_us-nfp-level-2026-06-01")
    × ((save after changed_opinion).1 ≡ ok (not (has_id forecast_id_of changed_opinion after)))
get-save_each_example =
    get-save_each name (first_opinion ∷ []) (changed_opinion ∷ second_opinion ∷ [])
      "fc_2026-06-02_us-nfp-level-2026-06-01" changed_opinion (refl, tt) (refl, (refl, tt)) refl

saved_later_example :
    let after = save_each (first_opinion ∷ []) (second_opinion ∷ []) in
    (latest_per_target after 30 ≡ latest_per_target (first_opinion ∷ []) 30)
    × (previous after "ser_us_nfp_level" (date 2026 6 1) 30
        ≡ previous (first_opinion ∷ []) "ser_us_nfp_level" (date 2026 6 1) 30)
saved_later_example =
    saved_later (first_opinion ∷ []) (second_opinion ∷ []) 30 "ser_us_nfp_level" (date 2026 6 1)
      (omega arith, tt)

previous-IsNewestOf_run :
    IsNewestOf predicted_at_of
      (is_before "ser_us_nfp_level" (date 2026 6 1) 37)
      (first_opinion ∷ second_opinion ∷ [])
      (previous (first_opinion ∷ second_opinion ∷ []) "ser_us_nfp_level" (date 2026 6 1) 37)
previous-IsNewestOf_run =
    previous-IsNewestOf (first_opinion ∷ second_opinion ∷ []) "ser_us_nfp_level" (date 2026 6 1) 37

abbrev labor_at : ℕ → StoredScore ℤ
labor_at instant = record {
  score_id = "sc_2026-06-02_labor";
  score = record {
    dimension = "labor";
    as_of = instant;
    score = pos 20;
    stance = "hot";
    confidence = pos 1;
    signals = [];
    contradictions = [];
    data_gaps = [];
    blind_spots = [];
  };
}

-- A second score of the day, as of a later instant, is declined.
second_score_of_a_day : Scores.save (labor_at 21 ∷ []) (labor_at 28) ≡ (labor_at 21 ∷ [], ok false)
unfolding Scores.save insert_once
second_score_of_a_day = refl

latest-IsNewestOf_example :
    let after = Scores.save_each (labor_at 21 ∷ []) (labor_at 38 ∷ []) in
    IsNewestOf as_of_of (is_at "labor" 30) (labor_at 21 ∷ []) (latest after "labor" 30)
    × IsNewestOf as_of_of
        (stood_before "labor" 30)
        (labor_at 21 ∷ [])
        (Scores.previous after "labor" 30)
    × (all_latest after 30 ≡ all_latest (labor_at 21 ∷ []) 30)
latest-IsNewestOf_example =
    latest-IsNewestOf (labor_at 21 ∷ []) (labor_at 38 ∷ []) "labor" 30 (omega arith, tt)
