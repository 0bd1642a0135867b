-- ===== src/Validation/Scoring/Stored.antt =====
-- What storing a scored forecast does to the rows of `forecast_errors`.
use mathlib.Core.Bool.{false≢true}
use invest.Base.{
  ℕ, ◌≡◌, refl, sym, ap, subst, inl, inr, Bool, true, false, ◌||◌, Option, none, some, String, List,
  [], ◌∷◌, ◌++◌, str_eq, Bool-cases, Begins, Begins-refl, Begins-trans, arith, eq_refl,
}
use invest.Common.Errors.{Result, ok, err}
use invest.Common.Floats.{FloatOps}
use invest.Validation.Scoring.{
  Forecast, ScoredForecast, Run, score_values, is_done, store, store_result, and_then, run,
}

module _ {Float : Type 0} where
  pub is_done-append :
      (errors : List (ScoredForecast Float)) (s : ScoredForecast Float) (id : String)
      → is_done (errors ++ s ∷ []) id ≡ (is_done errors id || str_eq s.forecast_id id)
  is_done-append [] s id = ground arith
  is_done-append (e ∷ errors) s id = ground (arith, is_done-append errors s id)

  -- Every forecast that the first rows score, the second rows score.
  abbrev pub Extends : List (ScoredForecast Float) → List (ScoredForecast Float) → Type 0
  Extends a b = (id : String) → is_done a id ≡ true → is_done b id ≡ true

  pub store-Extends :
      (s : ScoredForecast Float) (errors : List (ScoredForecast Float))
      → Extends errors (store s errors)
  unfolding store
  store-Extends s errors id h = ground (arith, is_done-append errors s id, h)

  pub is_done-store :
      (s : ScoredForecast Float) (errors : List (ScoredForecast Float))
      → is_done (store s errors) s.forecast_id ≡ true
  unfolding store
  is_done-store s errors =
      ground (arith, is_done-append errors s s.forecast_id, eq_refl s.forecast_id)

  pub store-Begins :
      (s : ScoredForecast Float) (errors : List (ScoredForecast Float))
      → Begins errors (store s errors)
  unfolding store
  store-Begins s errors = elim (Bool-cases (is_done errors s.forecast_id)) [
    | inl e ↦ rw e (Begins-refl errors)
    | inr e ↦ rw e (s ∷ [], refl)
  ]

  abbrev pub ends_well : Result (Unit {0}) × Run Float → Bool
  ends_well (ok _, run) = true
  ends_well (err _, run) = false

  -- A run that ends well went on from a step that ended well.
  pub and_then_ok :
      (o : Result (Unit {0}) × Run Float) (rest : Run Float → Result (Unit {0}) × Run Float)
      (end : Run Float)
      → and_then o rest ≡ (ok tt, end)
      → (mid : Run Float) × (o ≡ (ok tt, mid)) × (rest mid ≡ (ok tt, end))
  and_then_ok (ok _, mid) rest end e = (mid, refl, e)
  and_then_ok (err x, mid) rest end e = absurd (false≢true (ap ends_well e))

  pub store_result-Extends :
      (s : Result (ScoredForecast Float)) (run mid : Run Float) (f : Forecast Float)
      → ((scored : ScoredForecast Float) → s ≡ ok scored → scored.forecast_id ≡ f.forecast_id)
      → store_result s run ≡ (ok tt, mid)
      → Extends run.errors mid.errors × (is_done mid.errors f.forecast_id ≡ true)
  store_result-Extends (err x) run mid f h e = absurd (false≢true (ap ends_well e))
  store_result-Extends (ok s) run mid f h e =
      let same : store s run.errors ≡ mid.errors = ap (λ o. o.1.errors) e in
      (
        subst (Extends run.errors) same (store-Extends s run.errors),
        subst (λ id. is_done mid.errors id ≡ true) (h s refl)
            (subst (λ es. is_done es s.forecast_id ≡ true) same (is_done-store s run.errors)),
      )

  abbrev pub id_or : Forecast Float → Result (ScoredForecast Float) → String
  id_or f (ok s) = s.forecast_id
  id_or f (err _) = f.forecast_id

module _ {Float : Type 0} where
  pub store_result-Begins :
      (s : Result (ScoredForecast Float)) (run : Run Float)
      → Begins run.errors (store_result s run).1.errors
  store_result-Begins (err x) run = Begins-refl run.errors
  store_result-Begins (ok s) run = store-Begins s run.errors

  pub and_then-Begins :
      (start : List (ScoredForecast Float)) (o : Result (Unit {0}) × Run Float)
      (rest : Run Float → Result (Unit {0}) × Run Float)
      → Begins start o.1.errors
      → ((mid : Run Float) → Begins mid.errors (rest mid).1.errors)
      → Begins start (and_then o rest).1.errors
  and_then-Begins start (ok _, mid) rest h k =
      Begins-trans start mid.errors (rest mid).1.errors h (k mid)
  and_then-Begins start (err x, mid) rest h k = h

module _ {Float : Type 0} (ops : FloatOps Float) where
  pub score_values_id :
      (f : Forecast Float) (actual : Float) (vintage : ℕ) (point baseline : Option Float)
      (scored : ScoredForecast Float)
      → score_values ops f actual vintage point baseline ≡ ok scored
      → scored.forecast_id ≡ f.forecast_id
  score_values_id f actual vintage none baseline scored e = sym (ap (id_or f) e)
  score_values_id f actual vintage (some p) none scored e = sym (ap (id_or f) e)
  score_values_id f actual vintage (some p) (some b) scored e = sym (ap (id_or f) e)
