-- ===== src/Analysis/Macro.antt =====
-- mios/analysis/macro.py: scores of the macro dimensions, and the asset views built on them. Points
-- and scores are integers. The texts of rationales, contradictions and gaps are left out; what each is
-- about is kept.
use invest.Base.{
  ℕ, ◌+◌, Bool, not, ◌&&◌, Option, none, some, String, List, [], ◌∷◌, ◌++◌, map, ltb, leb, ◌==◌,
  any, if◌then◌else◌, filter, length,
}
use invest.Base.Dict.{Dict, get}
use invest.Base.Int.{ℤ, pos, ◌+ℤ◌, eq_ℤ}
use invest.Common.Numeric.{Numeric, literal, negate, clamp, minimum}
use invest.Series.Repo.{Table}
use invest.Prediction.Features.{History, load, mom_series, diff_series}
use invest.Prediction.Stats.{zscore, ratio}
use invest.Analysis.Records.{
  Measure, level_z, change_z, trend_z, SignalSpec, StanceWords, DimensionSpec, ViewLink,
  AssetViewSpec, Signal, Gap, short_history, no_readings, no_spread, not_computed, no_signals,
  Contradiction, balanced, opposing, MacroScore, Reading, reading, gap, Scored, magnitude, clip,
  is_positive, is_negative, stance_for,
}

module _ {Float : Type 0} (n : Numeric Float) where
  -- `sum(s.points for s in signals)`
  unfoldable pub total_points : List (Signal Float) → ℤ
  total_points [] = pos 0
  total_points (s ∷ signals) = s.points +ℤ total_points signals

  abbrev pub neutral_band : ℕ
  neutral_band = 10

  -- `(s.points > 0) != (score > 0)`
  abbrev pub pulls_against : ℤ → Signal Float → Bool
  pulls_against score s =
      not (eq_ℤ s.points (pos 0))
      && (if is_positive s.points then not (is_positive score) else is_positive score)

  -- `abs(s.points) >= abs(score) * CONTRADICTION_SHARE`
  abbrev pub is_material : ℤ → Signal Float → Bool
  is_material score s = not (
      n.less (n.of_whole (pos (magnitude s.points)))
        (n.times (n.of_whole (pos (magnitude score))) (literal n 2 1)))

  abbrev pub contradiction_of : Signal Float → Contradiction
  contradiction_of s = opposing s.about s.points

  -- `_contradictions`
  unfoldable pub contradictions_of : List (Signal Float) → ℤ → List Contradiction
  contradictions_of signals score =
      if leb (magnitude score) neutral_band
      then (if any (λ (s : Signal Float). is_positive s.points) signals
            && any (λ (s : Signal Float). is_negative s.points) signals
          then balanced ∷ []
          else [])
      else map contradiction_of
          (filter (λ s. is_material score s) (filter (pulls_against score) signals))

  abbrev pub or_gap : Gap → Option Float → Reading Float
  or_gap g none = gap g
  or_gap g (some x) = reading x

  -- The values that a measure reads.
  abbrev pub measured : Measure → History Float → List Float
  measured level_z history = history.values
  measured change_z history = diff_series n.base history
  measured trend_z history = mom_series n.base history

  abbrev pub reading_of : SignalSpec Float → List Float → Reading Float
  reading_of spec [] = gap (no_readings spec.series_id)
  reading_of spec (x ∷ values) =
      or_gap (no_spread spec.series_id) (zscore n (x ∷ values) spec.min_history)

  abbrev pub history_reading : SignalSpec Float → History Float → Reading Float
  history_reading spec history =
      if ltb (length history.values) spec.min_history
      then gap (short_history spec.series_id)
      else reading_of spec (measured spec.measure history)

  -- `_reading`
  unfoldable pub signal_reading : Table → SignalSpec Float → ℕ → Reading Float
  signal_reading table spec instant =
      history_reading spec (load n.base table spec.series_id instant)

  -- SIGNAL_CAP
  abbrev pub signal_cap : Float
  signal_cap = literal n 250 1

  unfoldable pub capped_points : Float → ℤ
  capped_points x = n.whole (clamp n (negate n signal_cap) signal_cap x)

  unfoldable pub signal_points : SignalSpec Float → Float → ℤ
  unfolding capped_points
  signal_points spec x =
      let bounded = clamp n (negate n (literal n 30 1)) (literal n 30 1) x in
      capped_points (n.times bounded spec.weight)

  abbrev pub add_gap : Gap → Scored Float → Scored Float
  add_gap g scored = record scored { gaps = scored.gaps ++ g ∷ [] }

  abbrev pub add_signal : Signal Float → Scored Float → Scored Float
  add_signal s scored = record scored { signals = scored.signals ++ s ∷ [] }

  abbrev pub add_reading : SignalSpec Float → Reading Float → Scored Float → Scored Float
  add_reading spec (gap g) scored = add_gap g scored
  add_reading spec (reading x) scored =
      add_signal
        (record { about = spec.series_id; value = n.rounded 4 x; points = signal_points spec x })
        scored

  -- The loop over the signals of a dimension.
  unfoldable pub score_signals : Table → ℕ → List (SignalSpec Float) → Scored Float → Scored Float
  score_signals table instant [] scored = scored
  score_signals table instant (spec ∷ specs) scored =
      score_signals table instant specs
        (add_reading spec (signal_reading table spec instant) scored)

  abbrev pub no_scores : Scored Float
  no_scores = record { signals = []; gaps = [] }

  -- The confidence of a dimension.
  unfoldable pub dimension_confidence : ℕ → ℕ → Float
  dimension_confidence available missing =
      if available == 0
      then literal n 1 1
      else n.rounded 2 (
          minimum n (literal n 9 1) (
            n.base.divide (n.times (literal n 9 1) (n.of_whole (pos available)))
              (n.of_whole (pos (available + missing)))))

  abbrev pub score_of :
      String → ℕ → StanceWords → List String → Float → Scored Float → MacroScore Float
  score_of name instant words blind_spots confidence scored =
      let score = clip 100 (total_points scored.signals) in
      record {
        dimension = name;
        as_of = instant;
        score = score;
        stance = stance_for score words;
        confidence = confidence;
        signals = scored.signals;
        contradictions = contradictions_of scored.signals score;
        data_gaps = scored.gaps;
        blind_spots = blind_spots;
      }

  -- `score_dimension`; the identifier, made of the day and the dimension, is left out.
  unfoldable pub score_dimension : Table → DimensionSpec Float → ℕ → MacroScore Float
  unfolding dimension_confidence contradictions_of stance_for
  score_dimension table spec instant =
      let scored = score_signals table instant spec.signals no_scores in
      score_of spec.dimension instant spec.stance_words spec.blind_spots
        (dimension_confidence (length scored.signals) (length scored.gaps)) scored

  abbrev pub add_link : ViewLink Float → Option (MacroScore Float) → Scored Float → Scored Float
  add_link link none scored = add_gap (not_computed link.dimension) scored
  add_link link (some source) scored =
      if leb (length source.signals) 0
      then add_gap (no_signals link.dimension) scored
      else add_signal
          (record {
            about = link.dimension;
            value = n.rounded 2 (n.of_whole source.score);
            points = capped_points (n.times (n.of_whole source.score) link.weight);
          })
          scored

  -- The loop over the links of a view.
  unfoldable pub score_links :
      Dict (MacroScore Float) → List (ViewLink Float) → Scored Float → Scored Float
  unfolding capped_points
  score_links dimensions [] scored = scored
  score_links dimensions (link ∷ links) scored =
      score_links dimensions links (add_link link (get link.dimension dimensions) scored)

  abbrev pub confidence_or : Option (MacroScore Float) → List Float → List Float
  confidence_or none rest = rest
  confidence_or (some source) rest = source.confidence ∷ rest

  -- `inherited`
  unfoldable pub inherited : Dict (MacroScore Float) → List (ViewLink Float) → List Float
  inherited dimensions [] = []
  inherited dimensions (link ∷ links) =
      confidence_or (get link.dimension dimensions) (inherited dimensions links)

  abbrev pub coverage : ℕ → ℕ → Float
  coverage signals links = if links == 0 then literal n 0 0 else ratio n signals links

  unfoldable pub view_confidence : List Float → ℕ → ℕ → Float
  view_confidence [] signals links = literal n 1 1
  view_confidence (c ∷ cs) signals links =
      let average = n.base.divide (n.total (c ∷ cs)) (n.of_whole (pos (length (c ∷ cs)))) in
      n.rounded 2
        (clamp n (literal n 1 1) (literal n 9 1) (n.times average (coverage signals links)))

  -- `asset_view`
  unfoldable pub asset_view : AssetViewSpec Float → Dict (MacroScore Float) → ℕ → MacroScore Float
  unfolding score_links inherited view_confidence contradictions_of stance_for
  asset_view spec dimensions instant =
      let scored = score_links dimensions spec.links no_scores in
      score_of spec.view_id instant spec.stance_words spec.blind_spots
        (view_confidence (inherited dimensions spec.links) (length scored.signals)
          (length spec.links))
        scored
