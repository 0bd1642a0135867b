-- ===== src/Analysis/Known.antt =====
-- `score_dimension` of mios/analysis/macro.py against rows of later vintages.
use invest.Base.{ℕ, ◌≡◌, ◌<◌, ◌++◌, refl, ap, List, [], ◌∷◌, All, length}
use invest.Common.Numeric.{Numeric}
use invest.Series.Repo.{Table}
use invest.Prediction.Features.Known.{load-append_later}
use invest.Analysis.Records.{SignalSpec, DimensionSpec, Scored}
use invest.Analysis.Macro.{
  add_reading, signal_reading, history_reading, score_signals, no_scores, score_of,
  dimension_confidence, score_dimension,
}

module _ {Float : Type 0} (n : Numeric Float) (table later : Table) (instant : ℕ)
    (h : All (λ r. instant < r.vintage_at) later) where
  signal_reading-append_later :
      (spec : SignalSpec Float)
      → signal_reading n (table ++ later) spec instant ≡ signal_reading n table spec instant
  unfolding signal_reading
  signal_reading-append_later spec =
      ap (history_reading n spec) (load-append_later n.base table later spec.series_id instant h).0

  score_signals-append_later :
      (specs : List (SignalSpec Float)) (scored : Scored Float)
      → score_signals n (table ++ later) instant specs scored
        ≡ score_signals n table instant specs scored
  unfolding score_signals
  score_signals-append_later [] scored = refl
  score_signals-append_later (spec ∷ specs) scored = rw (signal_reading-append_later spec) (
      score_signals-append_later specs
        (add_reading n spec (signal_reading n table spec instant) scored))

  -- Rows whose vintage is after the instant change nothing of a dimension's score as of that instant,
  -- its signals, stance, confidence, contradictions and gaps included.
  pub score_dimension-append_later :
      (spec : DimensionSpec Float)
      → score_dimension n (table ++ later) spec instant ≡ score_dimension n table spec instant
  unfolding score_dimension
  score_dimension-append_later spec =
      ap
        (λ scored.
          score_of n spec.dimension instant spec.stance_words spec.blind_spots
            (dimension_confidence n (length scored.signals) (length scored.gaps)) scored)
        (score_signals-append_later spec.signals (no_scores n))
