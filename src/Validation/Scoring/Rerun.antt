-- ===== src/Validation/Scoring/Rerun.antt =====
-- `Scorer.run`, once and twice: mios/validation/scoring.py.
use invest.Base.{
  ℕ, ◌≡◌, refl, ap, subst, ◌⊎◌, inl, inr, true, Option, none, some, String, List, [], ◌∷◌, All,
  Bool-cases, Begins, Begins-refl,
}
use invest.Common.Errors.{Result, ok}
use invest.Common.Floats.{FloatOps}
use invest.Series.Repo.{Table}
use invest.Validation.Scoring.{
  TargetSpec, Forecast, ScoredForecast, Run, score, is_done, realised, settle, score_one, score_all,
  pending_of, run, count_already, count_unresolved,
}
use invest.Validation.Scoring.Stored.{
  Extends, and_then_ok, store_result-Extends, store_result-Begins, and_then-Begins, score_values_id,
}

module _ {Float : Type 0} (ops : FloatOps Float) (table : Table)
    (targets : String → Option TargetSpec) (instant : ℕ) where
  -- What a further run leaves as it is: a forecast that is scored, or that is still unresolved.
  abbrev Quiet : List (ScoredForecast Float) → Forecast Float → Type 0
  Quiet errors f =
      (is_done errors f.forecast_id ≡ true) ⊎ (realised ops table targets instant f ≡ none)

  settle-Extends :
      (f : Forecast Float) (r : Option (Float × ℕ)) (run mid : Run Float)
      → settle ops table targets instant f r run ≡ (ok tt, mid)
      → Extends run.errors mid.errors × ((is_done mid.errors f.forecast_id ≡ true) ⊎ (r ≡ none))
  settle-Extends f none run mid e =
      (subst (Extends run.errors) (ap (λ o. o.1.errors) e) (λ id h. h), inr refl)
  settle-Extends f (some (actual, vintage)) run mid e =
      let (extends, done) =
        store_result-Extends (score ops f actual vintage) run mid f
          (λ scored q.
            unfold score in
            score_values_id ops f actual vintage f.point_value f.baseline_value scored q)
          e in
      (extends, inl done)

  score_one-Extends :
      (done : List (ScoredForecast Float)) (f : Forecast Float) (run mid : Run Float)
      → Extends done run.errors
      → score_one ops table targets instant done f run ≡ (ok tt, mid)
      → Extends run.errors mid.errors × Quiet mid.errors f
  unfolding score_one
  score_one-Extends done f run mid h e = elim (Bool-cases (is_done done f.forecast_id)) [
    | inl q ↦
        let same : run.errors ≡ mid.errors =
          ap (λ (o : Result (Unit {0}) × Run Float). o.1.errors) (rw q at e) in
        (
          subst (Extends run.errors) same (λ id k. k),
          inl (subst (λ es. is_done es f.forecast_id ≡ true) same (h f.forecast_id q)),
        )
    | inr q ↦ settle-Extends f (realised ops table targets instant f) run mid (rw q at e)
  ]

  abbrev AllQuiet : List (ScoredForecast Float) → List (Forecast Float) → Type 0
  AllQuiet errors = All (Quiet errors)

  Quiet-Extends :
      (a b : List (ScoredForecast Float)) (f : Forecast Float) → Extends a b → Quiet a f → Quiet b f
  Quiet-Extends a b f h (inl q) = inl (h f.forecast_id q)
  Quiet-Extends a b f h (inr q) = inr q

  score_all-AllQuiet :
      (done : List (ScoredForecast Float)) (fs : List (Forecast Float)) (run end : Run Float)
      → Extends done run.errors
      → score_all ops table targets instant done fs run ≡ (ok tt, end)
      → Extends run.errors end.errors × AllQuiet end.errors fs
  unfolding score_all
  score_all-AllQuiet done [] run end h e =
      (subst (Extends run.errors) (ap (λ o. o.1.errors) e) (λ id k. k), tt)
  score_all-AllQuiet done (f ∷ fs) run end h e =
      let (mid, p, q) =
        and_then_ok (score_one ops table targets instant done f run)
          (score_all ops table targets instant done fs) end e in
      let (grown, quiet) = score_one-Extends done f run mid h p in
      let (rest, all) = score_all-AllQuiet done fs mid end (λ id k. grown id (h id k)) q in
      ((λ id k. rest id (grown id k)), (Quiet-Extends mid.errors end.errors f rest quiet, all))

  -- How a run that has nothing to score ends.
  abbrev Idle : Run Float → Result (Unit {0}) × Run Float → Type 0
  Idle run o = (o.0 ≡ ok tt) × (o.1.errors ≡ run.errors) × (o.1.report.scored ≡ run.report.scored)

  score_all-Idle :
      (errors : List (ScoredForecast Float)) (fs : List (Forecast Float)) (run : Run Float)
      → AllQuiet errors fs
      → Idle run (score_all ops table targets instant errors fs run)
  unfolding score_all score_one
  score_all-Idle errors [] run h = (refl, refl, refl)
  score_all-Idle errors (f ∷ fs) run (inl q, h) =
      rw q (score_all-Idle errors fs (count_already run) h)
  score_all-Idle errors (f ∷ fs) run (inr q, h) = elim (Bool-cases (is_done errors f.forecast_id)) [
    | inl k ↦ rw k (score_all-Idle errors fs (count_already run) h)
    | inr k ↦ rw (k, q) (score_all-Idle errors fs (count_unresolved run) h)
  ]

  -- A run of the scorer that ends without an exception leaves nothing to a second run over the same
  -- tables at the same instant: the second ends without an exception too, scores no forecast and
  -- leaves `forecast_errors` as it is.
  pub run-Idle :
      (predictions : List (Forecast Float)) (errors : List (ScoredForecast Float)) (end : Run Float)
      → run ops table targets instant predictions errors ≡ (ok tt, end)
      → let again = run ops table targets instant predictions end.errors in
        (again.0 ≡ ok tt) × (again.1.errors ≡ end.errors) × (again.1.report.scored ≡ 0)
  unfolding run
  run-Idle predictions errors end e =
      let (_, quiet) =
        score_all-AllQuiet errors (pending_of ops table targets instant predictions) _ end
          (λ id k. k) e in
      score_all-Idle end.errors (pending_of ops table targets instant predictions) _ quiet

  settle-Begins :
      (f : Forecast Float) (r : Option (Float × ℕ)) (run : Run Float)
      → Begins run.errors (settle ops table targets instant f r run).1.errors
  settle-Begins f none run = Begins-refl run.errors
  settle-Begins f (some (actual, vintage)) run =
      store_result-Begins (score ops f actual vintage) run

  score_one-Begins :
      (done : List (ScoredForecast Float)) (f : Forecast Float) (run : Run Float)
      → Begins run.errors (score_one ops table targets instant done f run).1.errors
  unfolding score_one
  score_one-Begins done f run = elim (Bool-cases (is_done done f.forecast_id)) [
    | inl q ↦ rw q (Begins-refl run.errors)
    | inr q ↦ rw q (settle-Begins f (realised ops table targets instant f) run)
  ]

  score_all-Begins :
      (done : List (ScoredForecast Float)) (fs : List (Forecast Float)) (run : Run Float)
      → Begins run.errors (score_all ops table targets instant done fs run).1.errors
  unfolding score_all
  score_all-Begins done [] run = Begins-refl run.errors
  score_all-Begins done (f ∷ fs) run =
      and_then-Begins run.errors (score_one ops table targets instant done f run)
        (score_all ops table targets instant done fs) (score_one-Begins done f run)
        (score_all-Begins done fs)

  -- A run adds rows at the end of `forecast_errors` and changes none, also where an exception ends
  -- it.
  pub run-Begins :
      (predictions : List (Forecast Float)) (errors : List (ScoredForecast Float))
      → Begins errors (run ops table targets instant predictions errors).1.errors
  unfolding run
  run-Begins predictions errors =
      score_all-Begins errors (pending_of ops table targets instant predictions) _
