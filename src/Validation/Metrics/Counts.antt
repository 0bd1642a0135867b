-- ===== src/Validation/Metrics/Counts.antt =====
-- `MetricsReader.accuracy`: the samples and the figures that are stated on them.
use invest.Base.{
  str_eq, ◌&&◌, ℕ, suc, ◌+◌, ◌≡◌, refl, ap, ◌∙◌, inl, inr, Bool, true, false, Option, none, String,
  List, [], ◌∷◌, map, leb, filter, length, length-append, length-sort_by, is_some, sort_by,
  sort_by_text, insert_by_text, All, arith, Bool-cases,
}
use invest.Validation.Scoring.{ScoredForecast}
use invest.Validation.Metrics.{
  StatisticsOps, Accuracy, Group, of_target, rows, key_of, same_group, add_row, group_rows,
  sorted_groups, accuracy_of, accuracy, min_sample, when, horizon_band,
}
use invest.Validation.Metrics.Samples.{AreKeyed, groups-Samples}

is_some-when : {A : Type 0} (sufficient : Bool) (x : A) → is_some (when sufficient x) ≡ sufficient
is_some-when true x = refl
is_some-when false x = refl

module _ {Float : Type 0} where
  abbrev rows_in : List (Group Float) → ℕ
  rows_in [] = 0
  rows_in ((_, members) ∷ groups) = length members + rows_in groups

  rows_in-add_row :
      (row : ScoredForecast Float) (groups : List (Group Float))
      → rows_in (add_row row groups) ≡ suc (rows_in groups)
  unfolding add_row
  rows_in-add_row row [] = refl
  rows_in-add_row row ((key, members) ∷ groups) = elim (Bool-cases (same_group key (key_of row))) [
    | inl e ↦ rw e (omega (arith, length-append members (row ∷ [])))
    | inr e ↦ rw e (omega (arith, rows_in-add_row row groups))
  ]

  rows_in-group_rows :
      (groups : List (Group Float)) (rest : List (ScoredForecast Float))
      → rows_in (group_rows groups rest) ≡ rows_in groups + length rest
  unfolding group_rows
  rows_in-group_rows groups [] = omega arith
  rows_in-group_rows groups (row ∷ rest) =
      omega (arith, rows_in-group_rows (add_row row groups) rest, rows_in-add_row row groups)

  rows_in-insert_by_text :
      (key : Group Float → String) (g : Group Float) (groups : List (Group Float))
      → rows_in (insert_by_text key g groups) ≡ rows_in (g ∷ groups)
  unfolding insert_by_text
  rows_in-insert_by_text key g [] = refl
  rows_in-insert_by_text key g (h ∷ groups) = ground (arith, rows_in-insert_by_text key g groups)

  rows_in-sort_by_text :
      (key : Group Float → String) (groups : List (Group Float))
      → rows_in (sort_by_text key groups) ≡ rows_in groups
  unfolding sort_by_text
  rows_in-sort_by_text key [] = refl
  rows_in-sort_by_text key (g ∷ groups) = omega (
    arith,
    rows_in-insert_by_text key g (sort_by_text key groups),
    rows_in-sort_by_text key groups,
  )

module _ {Float : Type 0} (ops : StatisticsOps Float) where
  abbrev pub total : List (Accuracy Float) → ℕ
  total [] = 0
  total (a ∷ accuracies) = a.n + total accuracies

  total-accuracy_of :
      (groups : List (Group Float)) → total (map (accuracy_of ops) groups) ≡ rows_in groups
  unfolding accuracy_of
  total-accuracy_of [] = refl
  total-accuracy_of ((key, members) ∷ groups) =
      ap (λ n. length members + n) (total-accuracy_of groups)

  -- A figure of an accuracy is stated exactly where its sample is at least the minimum; the rate of
  -- right directions only there.
  pub record IsGated (a : Accuracy Float) : Type 0 where
    pub gate : a.sufficient ≡ leb min_sample a.n
    pub mae : is_some a.mae ≡ a.sufficient
    pub rmse : is_some a.rmse ≡ a.sufficient
    pub bias : is_some a.bias ≡ a.sufficient
    pub baseline_mae : is_some a.baseline_mae ≡ a.sufficient
    pub skill : is_some a.skill ≡ a.sufficient
    pub direction : a.sufficient ≡ false → a.directional_accuracy ≡ none

  accuracy_of-IsGated : (g : Group Float) → IsGated (accuracy_of ops g)
  unfolding accuracy_of
  accuracy_of-IsGated (key, members) = record {
    gate = refl;
    mae = is_some-when (leb min_sample (length members)) _;
    rmse = is_some-when (leb min_sample (length members)) _;
    bias = is_some-when (leb min_sample (length members)) _;
    baseline_mae = is_some-when (leb min_sample (length members)) _;
    skill = is_some-when (leb min_sample (length members)) _;
    direction = λ q. rw q refl;
  }

  All-accuracy_of : (groups : List (Group Float)) → All IsGated (map (accuracy_of ops) groups)
  All-accuracy_of [] = tt
  All-accuracy_of (g ∷ groups) = (accuracy_of-IsGated g, All-accuracy_of groups)

  rows_in-sorted_groups :
      (groups : List (Group Float)) → rows_in (sorted_groups groups) ≡ rows_in groups
  unfolding sorted_groups
  rows_in-sorted_groups groups =
      rows_in-sort_by_text (λ g. g.0.0) (sort_by_text (λ g. g.0.1) groups)
      ∙ rows_in-sort_by_text (λ g. g.0.1) groups

  length-rows :
      (errors : List (ScoredForecast Float)) (target : Option String)
      → length (rows errors target) ≡ length (filter (of_target target) errors)
  unfolding rows
  length-rows errors target =
      length-sort_by (λ r. r.target_period)
        (sort_by (λ r. r.days_ahead) (filter (of_target target) errors))
      ∙ length-sort_by (λ r. r.days_ahead) (filter (of_target target) errors)

  -- No two accuracies are of one target and horizon.
  abbrev pub AreApart : List (Accuracy Float) → Type 0
  AreApart [] = Unit
  AreApart (a ∷ accuracies) =
      All
        (λ (b : Accuracy Float).
          (str_eq a.target_series_id b.target_series_id && str_eq a.horizon b.horizon) ≡ false)
        accuracies
      × AreApart accuracies

  -- The scored forecasts of a target at a horizon.
  abbrev pub sample : List (ScoredForecast Float) → String → String → List (ScoredForecast Float)
  sample rows target horizon =
      filter
        (λ (r : ScoredForecast Float).
          str_eq r.target_series_id target && str_eq (horizon_band r.days_ahead) horizon)
        rows

  All-map_accuracy :
      (P : Accuracy Float → Type 0) (groups : List (Group Float))
      → All (λ g. P (accuracy_of ops g)) groups
      → All P (map (accuracy_of ops) groups)
  All-map_accuracy P [] h = tt
  All-map_accuracy P (g ∷ groups) h = (h.0, All-map_accuracy P groups h.1)

  AreKeyed-AreApart :
      (groups : List (Group Float)) → AreKeyed groups → AreApart (map (accuracy_of ops) groups)
  unfolding accuracy_of
  AreKeyed-AreApart [] h = tt
  AreKeyed-AreApart (g ∷ groups) h = (All-map_accuracy _ groups h.0, AreKeyed-AreApart groups h.1)

  -- Each accuracy counts the scored forecasts of its target, of those asked for, at its horizon; no two
  -- accuracies are of one target and horizon; and together they count every scored forecast asked for,
  -- so that each is in exactly one sample. Each accuracy states its figures exactly where its sample is
  -- at least the minimum (of the rate of right directions, only there).
  pub accuracy-IsGated :
      (errors : List (ScoredForecast Float)) (target : Option String)
      → (total (accuracy ops errors target) ≡ length (filter (of_target target) errors))
        × AreApart (accuracy ops errors target)
        × All
            (λ (a : Accuracy Float).
              a.n ≡ length (sample (filter (of_target target) errors) a.target_series_id a.horizon))
            (accuracy ops errors target)
        × All IsGated (accuracy ops errors target)
  unfolding accuracy accuracy_of
  accuracy-IsGated errors target =
      let groups = group_rows [] (rows errors target) in
      let samples = groups-Samples errors target in
      (
        omega (
          arith,
          total-accuracy_of (sorted_groups groups),
          rows_in-sorted_groups groups,
          rows_in-group_rows [] (rows errors target),
          length-rows errors target,
        ),
        AreKeyed-AreApart (sorted_groups groups) samples.0,
        All-map_accuracy _ (sorted_groups groups) samples.1,
        All-accuracy_of (sorted_groups groups),
      )
