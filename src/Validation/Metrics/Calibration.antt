-- ===== src/Validation/Metrics/Calibration.antt =====
-- `MetricsReader.calibration`: the samples of the bins.
use invest.Base.{
  ℕ, ◌+◌, ◌≡◌, refl, true, not, List, [], ◌∷◌, filter, length, All, arith, Bool-cases, inl, inr,
  Option, String,
}
use invest.Validation.Scoring.{ScoredForecast}
use invest.Validation.Metrics.{
  StatisticsOps, CalibrationBin, in_bin, bin_of, bins, calibration, rows, stated_of,
}

module _ {Float : Type 0} (ops : StatisticsOps Float) where
  -- A row beside the probability that it states.
  abbrev pub Stated : Type 0
  Stated = Float × ScoredForecast Float

  -- Of the probabilities stated, none is a NaN at a bound, and what is at least a bound is at least
  -- the bound before it.
  abbrev pub IsOrdered : Float → List Float → List Stated → Type 0
  IsOrdered lower [] stated = Unit
  IsOrdered lower (upper ∷ bounds) stated =
      All
        (λ (m : Stated).
          (ops.below m.0 upper ≡ not (ops.at_most upper m.0))
          × (ops.at_most upper m.0 ≡ true → ops.at_most lower m.0 ≡ true))
        stated
      × IsOrdered upper bounds stated

  abbrev pub total_n : List (CalibrationBin Float) → ℕ
  total_n [] = 0
  total_n (b ∷ rest) = b.n + total_n rest

  -- How many are at least a bound.
  abbrev pub count_from : Float → List Stated → ℕ
  count_from bound stated = length (filter (λ (m : Stated). ops.at_most bound m.0) stated)

  abbrev pub last_bound : Float → List Float → Float
  last_bound lower [] = lower
  last_bound lower (upper ∷ bounds) = last_bound upper bounds

  n-bin_of :
      (lower upper : Float) (members : List Stated)
      → (bin_of ops lower upper members).n ≡ length members
  n-bin_of lower upper [] = refl
  n-bin_of lower upper (m ∷ members) = refl

  count-in_bin :
      (lower upper : Float) (stated : List Stated)
      → All
          (λ (m : Stated).
            (ops.below m.0 upper ≡ not (ops.at_most upper m.0))
            × (ops.at_most upper m.0 ≡ true → ops.at_most lower m.0 ≡ true))
          stated
      → length (filter (in_bin ops lower upper) stated) + count_from upper stated
        ≡ count_from lower stated
  count-in_bin lower upper [] h = refl
  count-in_bin lower upper (m ∷ stated) ((b, o), h) = elim (Bool-cases (ops.at_most upper m.0)) [
    | inl e ↦ rw (b, e, o e) (omega (arith, count-in_bin lower upper stated h))
    | inr e ↦ elim (Bool-cases (ops.at_most lower m.0)) [
      | inl l ↦ rw (b, e, l) (omega (arith, count-in_bin lower upper stated h))
      | inr l ↦ rw (b, e, l) (count-in_bin lower upper stated h)
    ]
  ]

  bins_share :
      (lower : Float) (bounds : List Float) (stated : List Stated)
      → IsOrdered lower bounds stated
      → total_n (bins ops lower bounds stated) + count_from (last_bound lower bounds) stated
        ≡ count_from lower stated
  unfolding bins
  bins_share lower [] stated h = omega arith
  bins_share lower (upper ∷ bounds) stated (h, rest) = omega (
    arith,
    n-bin_of lower upper (filter (in_bin ops lower upper) stated),
    count-in_bin lower upper stated h,
    bins_share upper bounds stated rest,
  )

  -- Where comparison orders the stated probabilities and the bounds, the samples of the bins add up
  -- to the probabilities from the first bound on and below the last: each of them is in one bin.
  pub calibration_shares :
      (lower : Float) (bounds : List Float) (errors : List (ScoredForecast Float))
      (target : Option String)
      → IsOrdered lower bounds (stated_of (rows errors target))
      → total_n (calibration ops lower bounds errors target)
          + count_from (last_bound lower bounds) (stated_of (rows errors target))
        ≡ count_from lower (stated_of (rows errors target))
  unfolding calibration
  calibration_shares lower bounds errors target h =
      bins_share lower bounds (stated_of (rows errors target)) h
