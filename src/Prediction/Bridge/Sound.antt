-- ===== src/Prediction/Bridge/Sound.antt =====
-- What a forecast of mios/prediction/bridge.py is made of.
use invest.Base.{
  ℕ, ◌+◌, ◌≡◌, ◌≢◌, ◌<◌, ◌==◌, if◌then◌else◌, refl, sym, ap, ◌∙◌, false, ◌⊎◌, inl, inr, Option,
  none, some, List, [], ◌∷◌, ◌++◌, length, last?, is_some, arith, append_assoc, append-nil, map,
  subst, ltb, ltb→lt, ◌-◌, ◌/◌, IsIn, Bool-cases,
}
use invest.Common.Dates.{Date, date, year_of, month_of}
use invest.Common.Errors.{Result, ok, err, Raised, ◌>>=◌}
use invest.Common.Labels.{Frequency, daily, weekly, monthly, quarterly, irregular}
use invest.Common.Numeric.{Numeric, OrderLaws, clamp_bounds, negate, clamp}
use invest.Series.Repo.{Table}
use invest.Prediction.Features.{load, changes_of, first_of, next_period}
use invest.Prediction.Stats.{
  trailing_mean, directional_probabilities, baseline_error_spread, min_error_sample,
}
use invest.Prediction.Bridge.{
  TargetSpec, Gap, Forecast, Assembly, Driver, assemble, no_assembly, with_latest, with_baseline,
  finish, cap, contributions, note_spread, note_capped, forecast_target, no_error_spread, capped,
}
use invest.Prediction.Bridge.Drivers.{AreDrivers, assemble-Adds}

module _ {Float : Type 0} (n : Numeric Float) where
  -- Both probabilities are there, or neither is, for want of a spread.
  probabilities_both :
      (adjustment : Float) (spread : Option Float)
      → (is_some (directional_probabilities n adjustment spread).0
          ≡ is_some (directional_probabilities n adjustment spread).1)
        × ((directional_probabilities n adjustment spread).0 ≡ none → spread ≡ none)
  unfolding directional_probabilities
  probabilities_both adjustment none = (refl, λ h. refl)
  probabilities_both adjustment (some spread) = (refl, λ h. cc)

  -- What is noted after the drivers: the same drivers, and more gaps.
  abbrev Noted : Assembly Float → Option Float → Assembly Float → Type 0
  Noted before spread after =
      (notes : List Gap) × (after.gaps ≡ before.gaps ++ notes)
      × (after.drivers ≡ before.drivers)
      × (spread ≡ none → IsIn no_error_spread notes)

  note_capped-Noted :
      (c adjustment : Float) (assembly : Assembly Float)
      → (notes : List Gap) × ((note_capped n c adjustment assembly).gaps ≡ assembly.gaps ++ notes)
        × ((note_capped n c adjustment assembly).drivers ≡ assembly.drivers)
  note_capped-Noted c adjustment assembly = elim (Bool-cases (n.equal c adjustment)) [
    | inl e ↦ ([], rw e (sym (append-nil assembly.gaps)), rw e)
    | inr e ↦ (capped ∷ [], rw e, rw e)
  ]

  note_at_end : (notes : List Gap) (g : Gap) → IsIn g (notes ++ g ∷ [])
  note_at_end [] g = inl refl
  note_at_end (x ∷ notes) g = inr (note_at_end notes g)

  IsIn-append : (g : Gap) (xs ys : List Gap) → IsIn g ys → IsIn g (xs ++ ys)
  IsIn-append g [] ys h = h
  IsIn-append g (x ∷ xs) ys h = inr (IsIn-append g xs ys h)

  note_spread-Noted :
      (c adjustment : Float) (assembly : Assembly Float) (spread : Option Float)
      → Noted assembly spread (note_spread n spread (note_capped n c adjustment assembly))
  note_spread-Noted c adjustment assembly (some spread) =
      let (notes, gaps, drivers) = note_capped-Noted c adjustment assembly in
      (notes, gaps, drivers, λ h. cc)
  note_spread-Noted c adjustment assembly none =
      let (notes, gaps, drivers) = note_capped-Noted c adjustment assembly in
      (
        notes ++ no_error_spread ∷ [],
        ap (λ gs. gs ++ no_error_spread ∷ []) gaps ∙ append_assoc assembly.gaps notes _,
        drivers,
        λ h. note_at_end notes no_error_spread,
      )

  -- The forecast's period is the one after the target's last; its point is the baseline, which is the
  -- trailing mean of the changes, and an adjustment, which is the total of its drivers' contributions,
  -- cut to the target's cap; its drivers and the gaps are those of the configured drivers; the
  -- probabilities are both there, or neither is and a gap says so.
  abbrev pub IsSound :
      TargetSpec Float → Table → ℕ → List Date → List Float → Forecast Float → Type 0
  IsSound spec table instant periods changes f =
      (latest : Date) × (baseline : Float) × (adjustment : Float) × (driver_gaps : List Gap)
      × (notes : List Gap) × (last? periods ≡ some latest)
      × (next_period latest spec.frequency ≡ ok f.target_period)
      × (trailing_mean n changes spec.baseline_window 3 ≡ some baseline)
      × (f.baseline_value ≡ n.rounded 6 baseline)
      × (f.point_value ≡ n.rounded 6 (n.plus baseline adjustment))
      × (adjustment
          ≡ clamp n (negate n spec.max_adjustment) spec.max_adjustment
              (n.total (map (λ (d : Driver Float). d.contribution) f.drivers)))
      × (n.less adjustment (negate n spec.max_adjustment) ≡ false)
      × (n.less spec.max_adjustment adjustment ≡ false)
      × (f.data_gaps ≡ driver_gaps ++ notes)
      × AreDrivers n table instant spec.drivers f.drivers driver_gaps
      × (is_some f.upside_prob ≡ is_some f.downside_prob)
      × ((f.upside_prob ≡ none) → IsIn no_error_spread f.data_gaps)

  -- The year of the period after a date.
  abbrev pub next_year : Date → Frequency → ℕ
  next_year latest monthly = if month_of latest == 12 then year_of latest + 1 else year_of latest
  next_year latest quarterly = year_of latest + (month_of latest + 2) / 12
  next_year latest frequency = year_of latest

  -- What a call ends with, on a target with these periods and changes: nothing only for want of
  -- history, an exception only for a frequency that is neither monthly nor quarterly, or where the
  -- next period is after the year 9999.
  abbrev pub EndsSound :
      TargetSpec Float
      → Table
      → ℕ
      → List Date
      → List Float
      → Result (Option (Forecast Float))
      → Type 0
  EndsSound spec table instant periods changes (ok (some f)) =
      IsSound spec table instant periods changes f
  EndsSound spec table instant periods changes (ok none) =
      (last? periods ≡ none) ⊎ (length changes < 3)
  EndsSound spec table instant periods changes (err e) =
      ((spec.frequency ≢ monthly) × (spec.frequency ≢ quarterly))
      ⊎ ((latest : Date) × (last? periods ≡ some latest) × (9999 < next_year latest spec.frequency))

  first_of-err : (y m : ℕ) (e : Raised) → first_of y m ≡ err e → 9999 < y
  unfolding first_of
  first_of-err y m e h = elim (Bool-cases (ltb 9999 y)) [
    | inl past ↦ ltb→lt 9999 y past
    | inr within ↦ let no : ◌≡◌ {A = Result Date} (ok (date y m 1)) (err e) = (rw within at h) in cc
  ]

  next_period-err :
      (latest : Date) (frequency : Frequency) (e : Raised)
      → next_period latest frequency ≡ err e
      → ((frequency ≢ monthly) × (frequency ≢ quarterly)) ⊎ (9999 < next_year latest frequency)
  unfolding next_period
  next_period-err latest monthly e h = elim (Bool-cases (month_of latest == 12)) [
    | inl december ↦ inr (rw december (first_of-err (year_of latest + 1) 1 e (rw december at h)))
    | inr other ↦
        inr (rw other (first_of-err (year_of latest) (month_of latest + 1) e (rw other at h)))
  ]
  next_period-err latest quarterly e h =
      let past = first_of-err (year_of latest + (month_of latest + 3 - 1) / 12) _ e h in
      inr (omega arith)
  next_period-err latest daily e h = inl (λ q. cc, λ q. cc)
  next_period-err latest weekly e h = inl (λ q. cc, λ q. cc)
  next_period-err latest irregular e h = inl (λ q. cc, λ q. cc)

  trailing_mean-none :
      (values : List Float) (window : ℕ)
      → trailing_mean n values window 3 ≡ none
      → length values < 3
  unfolding trailing_mean
  trailing_mean-none values window h = ground arith

  module _ (laws : OrderLaws n) (spec : TargetSpec Float)
      (positive : n.less spec.max_adjustment (negate n spec.max_adjustment) ≡ false) where
    finish-IsSound :
        (table : Table) (instant predicted_at : ℕ) (periods : List Date) (changes : List Float)
        (latest period : Date) (baseline : Float)
        → last? periods ≡ some latest
        → next_period latest spec.frequency ≡ ok period
        → trailing_mean n changes spec.baseline_window 3 ≡ some baseline
        → IsSound spec table instant periods changes (
            finish n spec instant predicted_at baseline changes period
              (assemble n table instant spec.drivers (no_assembly n)))
    unfolding finish directional_probabilities
    finish-IsSound table instant predicted_at periods changes latest period baseline l p b =
        let assembly = assemble n table instant spec.drivers (no_assembly n) in
        let adjustment = n.total (contributions n assembly) in
        let c = cap n spec adjustment in
        let spread = baseline_error_spread n changes spec.baseline_window min_error_sample in
        let (notes, gaps, drivers, noted) = note_spread-Noted c adjustment assembly spread in
        let (low, high) =
          clamp_bounds n laws (negate n spec.max_adjustment) spec.max_adjustment adjustment
            positive in
        let (both, without) = probabilities_both c spread in
        let (ds, gs, d, g, are) = assemble-Adds n table instant spec.drivers (no_assembly n) in
        (
          latest,
          baseline,
          c,
          assembly.gaps,
          notes,
          l,
          p,
          b,
          refl,
          refl,
          ap (λ drivers. cap n spec (n.total (map (λ (d : Driver Float). d.contribution) drivers)))
              (sym drivers),
          low,
          high,
          gaps,
          subst (λ x. AreDrivers n table instant spec.drivers x assembly.gaps) (sym (drivers ∙ d))
              (subst (AreDrivers n table instant spec.drivers ds) (sym g) are),
          both,
          λ h. rw gaps (IsIn-append no_error_spread assembly.gaps notes (noted (without h))),
        )

    stepped :
        (table : Table) (instant : ℕ) (periods : List Date) (changes : List Float) (latest : Date)
        (period : Result Date) (f : Date → Forecast Float)
        → last? periods ≡ some latest
        → next_period latest spec.frequency ≡ period
        → ((d : Date)
            → next_period latest spec.frequency ≡ ok d
            → IsSound spec table instant periods changes (f d))
        → EndsSound spec table instant periods changes (do d ← period; ok (some (f d)))
    stepped table instant periods changes latest (ok d) f l e k = k d e
    stepped table instant periods changes latest (err raised) f l e k =
        elim (next_period-err latest spec.frequency raised e) [
          | inl other ↦ inl other
          | inr past ↦ inr (latest, l, past)
        ]

    with_baseline-EndsSound :
        (table : Table) (instant predicted_at : ℕ) (periods : List Date) (changes : List Float)
        (latest : Date) (baseline : Option Float)
        → last? periods ≡ some latest
        → trailing_mean n changes spec.baseline_window 3 ≡ baseline
        → EndsSound spec table instant periods changes
            (with_baseline n table spec instant predicted_at changes latest baseline)
    with_baseline-EndsSound table instant predicted_at periods changes latest none l e =
        inr (trailing_mean-none changes spec.baseline_window e)
    with_baseline-EndsSound table instant predicted_at periods changes latest (some baseline) l e =
        let assembly = assemble n table instant spec.drivers (no_assembly n) in
        stepped table instant periods changes latest (next_period latest spec.frequency)
          (λ period. finish n spec instant predicted_at baseline changes period assembly) l refl
          (λ period p.
            finish-IsSound table instant predicted_at periods changes latest period baseline l p e)

    with_latest-EndsSound :
        (table : Table) (instant predicted_at : ℕ) (periods : List Date) (changes : List Float)
        (latest : Option Date)
        → last? periods ≡ latest
        → EndsSound spec table instant periods changes
            (with_latest n table spec instant predicted_at changes latest)
    with_latest-EndsSound table instant predicted_at periods changes none e = inl e
    with_latest-EndsSound table instant predicted_at periods changes (some latest) e =
        with_baseline-EndsSound table instant predicted_at periods changes latest
          (trailing_mean n changes spec.baseline_window 3) e refl

    -- Where a forecast is made, its period is the one after the target's last, and its point is the
    -- trailing mean of the target's changes and an adjustment: the total of its drivers'
    -- contributions, cut to the target's cap, which is not negative. Each configured driver, in order,
    -- is among its drivers, with its reading as of the instant and the reading times its weight as
    -- contribution, or has the gap that its reading gives. It has both probabilities, or neither and a
    -- gap that says so. There is no forecast only where the target has no period or fewer than three
    -- changes as of the instant, and an exception only for a frequency that is neither monthly nor
    -- quarterly or a next period after the year 9999 (the identifier and the record's validators
    -- apart). `<` on floats is asymmetric.
    pub forecast_target-EndsSound :
        (table : Table) (instant predicted_at : ℕ)
        → let target = load n.base table spec.series_id instant in
          EndsSound spec table instant target.periods
            (changes_of n.base target spec.transform)
            (forecast_target n table spec instant predicted_at)
    unfolding forecast_target
    forecast_target-EndsSound table instant predicted_at =
        let target = load n.base table spec.series_id instant in
        with_latest-EndsSound table instant predicted_at target.periods
          (changes_of n.base target spec.transform) (last? target.periods) refl
