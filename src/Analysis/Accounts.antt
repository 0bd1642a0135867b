-- ===== src/Analysis/Accounts.antt =====
-- What the loops of mios/analysis/macro.py over signals and links make of each.
use invest.Base.{
  ℕ, ◌≡◌, ◌⊎◌, refl, sym, ◌∙◌, true, false, inl, inr, Option, none, some, List, [], ◌∷◌, ◌++◌, leb,
  length, Bool-cases, append_assoc, append-nil,
}
use invest.Base.Dict.{Dict, get}
use invest.Base.Int.{ℤ}
use invest.Common.Numeric.{Numeric, literal, negate, clamp}
use invest.Prediction.Features.{load}
use invest.Series.Repo.{Table}
use invest.Analysis.Records.{
  SignalSpec, ViewLink, Signal, Gap, not_computed, no_signals, MacroScore, Reading, reading, gap,
  Scored,
}
use invest.Analysis.Macro.{
  capped_points, signal_points, add_gap, add_signal, add_reading, history_reading, signal_reading,
  score_signals, add_link, score_links,
}

module _ {Float : Type 0} (n : Numeric Float) where
  -- `round` of a number of points, cut to 25 either way
  abbrev pub whole_points : Float → ℤ
  whole_points x = n.whole (clamp n (negate n (literal n 250 1)) (literal n 250 1) x)

  -- Each configured signal, in order, gives a signal about its series, with the reading and the points
  -- of the reading, cut to 3 either way, times the weight; or the gap that its reading gives.
  abbrev pub AreSignals :
      Table → ℕ → List (SignalSpec Float) → List (Signal Float) → List Gap → Type 0
  AreSignals table instant [] signals gaps = (signals ≡ []) × (gaps ≡ [])
  AreSignals table instant (spec ∷ specs) signals gaps =
      ((x : Float) × (rest : List (Signal Float)) × (history_reading n spec
            (load n.base table spec.series_id instant)
          ≡ reading x)
        × (signals
            ≡ record {
              about = spec.series_id;
              value = n.rounded 4 x;
              points =
                  whole_points
                    (n.times (clamp n (negate n (literal n 30 1)) (literal n 30 1) x) spec.weight);
            }
              ∷ rest)
        × AreSignals table instant specs rest gaps)
      ⊎ ((g : Gap) × (rest : List Gap) × (history_reading n spec
              (load n.base table spec.series_id instant)
            ≡ gap g)
          × (gaps ≡ g ∷ rest)
          × AreSignals table instant specs signals rest)

  -- Each link of a view, in order, gives a signal about its dimension, with the score and the points of
  -- the score times the weight; or a gap where the dimension is not there or has no signals.
  abbrev pub AreLinks :
      Dict (MacroScore Float) → List (ViewLink Float) → List (Signal Float) → List Gap → Type 0
  AreLinks dimensions [] signals gaps = (signals ≡ []) × (gaps ≡ [])
  AreLinks dimensions (link ∷ links) signals gaps =
      ((source : MacroScore Float) × (rest : List (Signal Float)) × (get link.dimension dimensions
          ≡ some source)
        × (leb (length source.signals) 0 ≡ false)
        × (signals
            ≡ record {
              about = link.dimension;
              value = n.rounded 2 (n.of_whole source.score);
              points = whole_points (n.times (n.of_whole source.score) link.weight);
            }
              ∷ rest)
        × AreLinks dimensions links rest gaps)
      ⊎ ((source : MacroScore Float) × (rest : List Gap) × (get link.dimension dimensions
            ≡ some source)
          × (leb (length source.signals) 0 ≡ true)
          × (gaps ≡ no_signals link.dimension ∷ rest)
          × AreLinks dimensions links signals rest)
      ⊎ ((rest : List Gap) × (get link.dimension dimensions ≡ none)
          × (gaps ≡ not_computed link.dimension ∷ rest)
          × AreLinks dimensions links signals rest)

  -- A loop adds its signals and gaps after those it begins with.
  abbrev pub Adds : (List (Signal Float) → List Gap → Type 0) → Scored Float → Scored Float → Type 0
  Adds Account before after =
      (signals : List (Signal Float)) × (gaps : List Gap) × (after.signals
        ≡ before.signals ++ signals)
      × (after.gaps ≡ before.gaps ++ gaps)
      × Account signals gaps

  Adds-add_reading :
      (table : Table) (instant : ℕ) (spec : SignalSpec Float) (specs : List (SignalSpec Float))
      (r : Reading Float) (before after : Scored Float)
      → history_reading n spec (load n.base table spec.series_id instant) ≡ r
      → Adds (AreSignals table instant specs) (add_reading n spec r before) after
      → Adds (AreSignals table instant (spec ∷ specs)) before after
  unfolding signal_points capped_points
  Adds-add_reading table instant spec specs (reading x) before after e (signals, gaps, s, g, a) =
      (_, gaps, s ∙ append_assoc before.signals (_ ∷ []) signals, g, inl (x, signals, e, refl, a))
  Adds-add_reading table instant spec specs (gap h) before after e (signals, gaps, s, g, a) =
      (signals, h ∷ gaps, s, g ∙ append_assoc before.gaps (h ∷ []) gaps, inr (h, gaps, e, refl, a))

  pub score_signals-Adds :
      (table : Table) (instant : ℕ) (specs : List (SignalSpec Float)) (before : Scored Float)
      → Adds (AreSignals table instant specs) before (score_signals n table instant specs before)
  unfolding score_signals signal_reading
  score_signals-Adds table instant [] before =
      ([], [], sym (append-nil before.signals), sym (append-nil before.gaps), (refl, refl))
  score_signals-Adds table instant (spec ∷ specs) before =
      Adds-add_reading table instant spec specs (signal_reading n table spec instant) before _ refl
        (score_signals-Adds table instant specs
          (add_reading n spec (signal_reading n table spec instant) before))

  Adds-add_link :
      (dimensions : Dict (MacroScore Float)) (link : ViewLink Float) (links : List (ViewLink Float))
      (found : Option (MacroScore Float)) (before after : Scored Float)
      → get link.dimension dimensions ≡ found
      → Adds (AreLinks dimensions links) (add_link n link found before) after
      → Adds (AreLinks dimensions (link ∷ links)) before after
  unfolding capped_points
  Adds-add_link dimensions link links none before after e (signals, gaps, s, g, a) = (
    signals,
    _,
    s,
    g ∙ append_assoc before.gaps (not_computed link.dimension ∷ []) gaps,
    inr (inr (gaps, e, refl, a)),
  )
  Adds-add_link dimensions link links (some source) before after e h =
      elim (Bool-cases (leb (length source.signals) 0)) [
        | inl empty ↦
            let (signals, gaps, s, g, a) : Adds (AreLinks dimensions links)
                (add_gap n (no_signals link.dimension) before) after =
              (rw empty at h) in
            (
              signals,
              _,
              s,
              g ∙ append_assoc before.gaps (no_signals link.dimension ∷ []) gaps,
              inr (inl (source, gaps, e, empty, refl, a)),
            )
        | inr filled ↦
            let (signals, gaps, s, g, a) : Adds (AreLinks dimensions links)
                (add_signal n
                  (record {
                    about = link.dimension;
                    value = n.rounded 2 (n.of_whole source.score);
                    points = whole_points (n.times (n.of_whole source.score) link.weight);
                  })
                  before)
                after =
              (rw filled at h) in
            (
              _,
              gaps,
              s ∙ append_assoc before.signals (_ ∷ []) signals,
              g,
              inl (source, signals, e, filled, refl, a),
            )
      ]

  pub score_links-Adds :
      (dimensions : Dict (MacroScore Float)) (links : List (ViewLink Float)) (before : Scored Float)
      → Adds (AreLinks dimensions links) before (score_links n dimensions links before)
  unfolding score_links
  score_links-Adds dimensions [] before =
      ([], [], sym (append-nil before.signals), sym (append-nil before.gaps), (refl, refl))
  score_links-Adds dimensions (link ∷ links) before =
      let found = get link.dimension dimensions in
      Adds-add_link dimensions link links found before _ refl
        (score_links-Adds dimensions links (add_link n link found before))
