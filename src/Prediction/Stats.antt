-- ===== src/Prediction/Stats.antt =====
-- The numbers that mios/prediction/features.py takes of a history, and mios/prediction/probability.py.
use invest.Base.{
  ℕ, zero, suc, ◌+◌, ◌-◌, Option, none, some, List, [], ◌∷◌, ltb, leb, ◌==◌, if◌then◌else◌, length,
  ◌++◌, last?,
}
use invest.Base.Int.{pos}
use invest.Common.Numeric.{Numeric, literal, minimum, clamp}
use invest.Prediction.Features.{History, change}

abbrev pub min_history : ℕ
min_history = 8

abbrev pub min_error_sample : ℕ
min_error_sample = 12

unfoldable pub drop {ℓ} : {A : Type ℓ} → ℕ → List A → List A
drop zero xs = xs
drop (suc n) [] = []
drop (suc n) (x ∷ xs) = drop n xs

-- `xs[-n:]`, for n above 0.
abbrev pub last_n {ℓ} : {A : Type ℓ} → ℕ → List A → List A
last_n n xs = drop (length xs - n) xs

-- `xs[:-1]`
unfoldable pub without_last {ℓ} : {A : Type ℓ} → List A → List A
without_last [] = []
without_last (x ∷ []) = []
without_last (x ∷ y ∷ xs) = x ∷ without_last (y ∷ xs)

-- `xs[i]`, for an index that is there.
unfoldable pub at {ℓ} : {A : Type ℓ} → ℕ → List A → Option A
at i [] = none
at zero (x ∷ xs) = some x
at (suc i) (x ∷ xs) = at i xs

module _ {Float : Type 0} (n : Numeric Float) where
  abbrev pub change_from : Option Float → Option Float → Option Float
  change_from (some previous) (some latest) =
      if n.base.is_zero previous then none else some (change n.base previous latest)
  change_from previous latest = none

  -- `pct_change`
  unfoldable pub pct_change : History Float → ℕ → Option Float
  unfolding at
  pct_change history periods =
      let count = length history.values in
      if leb count periods
      then none
      else change_from (at (count - 1 - periods) history.values) (last? history.values)

  -- `trailing_mean`
  unfoldable pub trailing_mean : List Float → ℕ → ℕ → Option Float
  unfolding drop
  trailing_mean values window min_n =
      if ltb (length values) min_n then none else some (n.mean (last_n window values))

  abbrev pub above_mean : Option Float → List Float → Option Float
  above_mean none history = none
  above_mean (some latest) [] = none
  above_mean (some latest) (x ∷ history) = some (n.base.minus latest (n.mean (x ∷ history)))

  -- `deviation_from_trend`
  unfoldable pub deviation_from_trend : List Float → ℕ → ℕ → Option Float
  unfolding drop without_last
  deviation_from_trend values window min_n =
      if ltb (length values) min_n
      then none
      else above_mean (last? values) (without_last (last_n (window + 1) values))

  abbrev pub standardised : Option Float → List Float → Option Float
  standardised none history = none
  standardised (some latest) history =
      let spread = n.spread history in
      if n.base.is_zero spread
      then none
      else some (n.base.divide (n.base.minus latest (n.mean history)) spread)

  -- `zscore`
  unfoldable pub zscore : List Float → ℕ → Option Float
  unfolding without_last
  zscore values min_n =
      if ltb (length values) min_n then none else standardised (last? values) (without_last values)

  -- The errors of the naive forecast, for each value that has `window` values before it.
  unfoldable pub baseline_errors : ℕ → List Float → List Float → List Float
  unfolding drop
  baseline_errors window before [] = []
  baseline_errors window before (actual ∷ actuals) =
      let rest = baseline_errors window (before ++ actual ∷ []) actuals in
      if ltb (length before) window
      then rest
      else n.base.minus actual (n.mean (last_n window before)) ∷ rest

  abbrev pub positive_spread : Float → Option Float
  positive_spread spread = if n.base.is_positive spread then some spread else none

  -- `baseline_error_spread`
  unfoldable pub baseline_error_spread : List Float → ℕ → ℕ → Option Float
  unfolding baseline_errors
  baseline_error_spread actuals window min_n =
      let errors = baseline_errors window [] actuals in
      if ltb (length errors) min_n then none else positive_spread (n.spread errors)

  -- `normal_cdf`
  unfoldable pub normal_cdf : Float → Float
  normal_cdf z =
      n.times (literal n 5 1)
        (n.plus (literal n 10 1) (n.erf (n.base.divide z (n.sqrt (literal n 20 1)))))

  abbrev pub probability_bound : Float
  probability_bound = literal n 5 2

  -- `directional_probabilities`
  unfoldable pub directional_probabilities : Float → Option Float → Option Float × Option Float
  unfolding normal_cdf
  directional_probabilities adjustment none = (none, none)
  directional_probabilities adjustment (some error_spread) =
      let upside =
        clamp n probability_bound (n.base.minus (literal n 10 1) probability_bound)
          (normal_cdf (n.base.divide adjustment error_spread)) in
      (some (n.rounded 3 upside), some (n.rounded 3 (n.base.minus (literal n 10 1) upside)))

  abbrev pub of_count : ℕ → Float
  of_count k = n.of_whole (pos k)

  abbrev pub ratio : ℕ → ℕ → Float
  ratio a b = n.base.divide (of_count a) (of_count b)

  -- `confidence_from`
  unfoldable pub confidence_from : ℕ → ℕ → ℕ → ℕ → Float
  confidence_from available missing history needed =
      if available == 0
      then literal n 1 1
      else let coverage = ratio available (available + missing) in
        let depth =
          if ltb 0 needed
          then minimum n (literal n 10 1) (ratio history needed)
          else literal n 10 1 in
        n.rounded 2 (clamp n (literal n 1 1) (literal n 95 2) (n.times coverage depth))
