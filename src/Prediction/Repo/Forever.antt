-- ===== src/Prediction/Repo/Forever.antt =====
-- What the table `predictions` of mios/prediction/repo.py keeps.
use invest.Base.{
  ℕ, ◌<◌, ◌≡◌, ap, true, not, String, List, ◌++◌, All, All-imp, arith, eq_iff, leb, Begins,
  All-append, last?, sort_by,
}
use invest.Common.Dates.{Date}
use invest.Common.Errors.{ok}
use invest.Storage.Rows.{
  insert_each, insert_each_adds, find_id-insert_each, insert_once_reads, has_id, kept,
}
use invest.Storage.Newest.{newest_where, last_of_each, IsNewestOf, newest_where-IsNewestOf}
use invest.Prediction.Repo.{
  StoredForecast, forecast_id_of, target_of, period_of, predicted_at_of, same_opinion, save,
  save_each, get, latest_per_target, previous, is_before, in_order, same_target,
}

module _ {Float : Type 0} where
  -- The identifier is made of the target, the period and the instant.
  abbrev pub IsNamed : (String → Date → ℕ → String) → StoredForecast Float → Type 0
  IsNamed name r = r.forecast_id ≡ name (target_of r) (period_of r) (predicted_at_of r)

  opinions_agree :
      (name : String → Date → ℕ → String) (a b : StoredForecast Float)
      → IsNamed name a
      → IsNamed name b
      → same_opinion a b ≡ true
      → a.forecast_id ≡ b.forecast_id
  opinions_agree name a b h k e =
      let target : target_of a ≡ target_of b =
        ground (arith, e, eq_iff (target_of a) (target_of b)) in
      let period : period_of a ≡ period_of b = ground (arith, e) in
      let instant : predicted_at_of a ≡ predicted_at_of b = ground (arith, e) in cc

  -- However often forecasts are saved, the first that was stored under an identifier is the one that is
  -- read: no row is changed or removed, a read by identifier finds the first of all that were given, and
  -- a further save does not raise and says whether its identifier is new. The identifiers are a
  -- function of the target, the period and the instant.
  pub get-save_each :
      (name : String → Date → ℕ → String) (table forecasts : List (StoredForecast Float))
      (forecast_id : String) (next : StoredForecast Float)
      → All (IsNamed name) table
      → All (IsNamed name) forecasts
      → IsNamed name next
      → let after = save_each table forecasts in
        Begins table after
        × (get after forecast_id ≡ get (table ++ forecasts) forecast_id)
        × ((save after next).1 ≡ ok (not (has_id forecast_id_of next after)))
  unfolding get save_each save
  get-save_each name table forecasts forecast_id next h k p =
      let named = opinions_agree name in
      let (new, e, q) =
        insert_each_adds forecast_id_of same_opinion (IsNamed name) table forecasts k in
      let all_named : All (IsNamed name) (insert_each forecast_id_of same_opinion table forecasts) =
        rw e (All-append (IsNamed name) table new h q) in
      (
        (new, e),
        find_id-insert_each forecast_id_of same_opinion (IsNamed name) named forecast_id table
            forecasts h k,
        (insert_once_reads forecast_id_of same_opinion (IsNamed name) named forecast_id
            (insert_each forecast_id_of same_opinion table forecasts) next all_named p).1,
      )

  -- Forecasts that are made after an instant and saved change nothing of what a report dated at that
  -- instant reads: the latest of each target, and the one that stood before it.
  pub saved_later :
      (table forecasts : List (StoredForecast Float)) (instant : ℕ) (target_series_id : String)
      (target_period : Date)
      → All (λ r. instant < predicted_at_of r) forecasts
      → let after = save_each table forecasts in
        (latest_per_target after instant ≡ latest_per_target table instant)
        × (previous after target_series_id target_period instant
            ≡ previous table target_series_id target_period instant)
  unfolding latest_per_target previous save_each newest_where
  saved_later table forecasts instant target_series_id target_period h =
      let (new, e, later) = insert_each_adds forecast_id_of same_opinion _ table forecasts h in
      (
        ap (λ rows. last_of_each same_target (in_order rows))
            (kept (λ r. leb (predicted_at_of r) instant) table new e
              (All-imp new (λ r lt. ground (arith, lt)) later)),
        ap (λ rows. last? (sort_by predicted_at_of rows))
            (kept (is_before target_series_id target_period instant) table new e
              (All-imp new (λ r lt. ground (arith, lt)) later)),
      )

  -- The forecast that stood before an instant is one of that target and period, made before it, of which
  -- none is newer; there is none only where the table has no such forecast.
  pub previous-IsNewestOf :
      (table : List (StoredForecast Float)) (target_series_id : String) (target_period : Date)
      (before : ℕ)
      → IsNewestOf predicted_at_of
          (is_before target_series_id target_period before)
          table
          (previous table target_series_id target_period before)
  unfolding previous
  previous-IsNewestOf table target_series_id target_period before =
      newest_where-IsNewestOf predicted_at_of (is_before target_series_id target_period before)
        table
