-- ===== src/Analysis/Bounds.antt =====
-- The range of points and scores in mios/analysis/macro.py, and the account of every input.
use invest.Base.{
  ℕ, zero, suc, ◌≤◌, ◌≡◌, refl, sym, ◌∙◌, true, ◌⊎◌, inl, inr, Option, none, some, List, [], ◌∷◌,
  length, All, All-append, arith, Bool-cases, leb, String, subst,
}
use invest.Base.Dict.{Dict, get}
use invest.Base.Int.{ℤ, pos, negsuc}
use invest.Common.Numeric.{Numeric, negate, clamp, minimum, maximum}
use invest.Series.Repo.{Table}
use invest.Analysis.Accounts.{AreSignals, AreLinks, Adds, score_signals-Adds, score_links-Adds}
use invest.Analysis.Contradictions.{AreContradictions, contradictions_of-AreContradictions}
use invest.Analysis.Records.{
  SignalSpec, StanceWords, DimensionSpec, ViewLink, AssetViewSpec, Signal, Gap, MacroScore, Reading,
  reading, gap, Scored, magnitude, clip,
}
use invest.Analysis.Macro.{
  signal_cap, capped_points, signal_points, add_signal, add_reading, signal_reading, score_signals,
  no_scores, score_of, add_link, score_links, score_dimension, asset_view, total_points,
  dimension_confidence, view_confidence, inherited,
}

-- What the code relies on of `round(x)`: it keeps the bounds -25.0 and 25.0.
pub record RoundLaws {Float : Type 0} (n : Numeric Float) : Type 0 where
  pub between :
      (x : Float)
      → n.less (negate n (signal_cap n)) x ≡ true
      → n.less x (signal_cap n) ≡ true
      → magnitude (n.whole x) ≤ 25
  pub highest : magnitude (n.whole (signal_cap n)) ≤ 25
  pub lowest : magnitude (n.whole (negate n (signal_cap n))) ≤ 25

clip_bounds : (bound : ℕ) (x : ℤ) → magnitude (clip bound x) ≤ bound
unfolding clip
clip_bounds bound (pos k) = ground arith
clip_bounds zero (negsuc k) = omega arith
clip_bounds (suc bound) (negsuc k) = ground arith

module _ {Float : Type 0} (n : Numeric Float) where
  minimum_cases : (a b : Float) → ((minimum n a b ≡ b) × (n.less b a ≡ true)) ⊎ (minimum n a b ≡ a)
  unfolding minimum
  minimum_cases a b = elim (Bool-cases (n.less b a)) [ inl e ↦ inl (rw e, e) | inr e ↦ inr (rw e) ]

  maximum_cases : (a b : Float) → ((maximum n a b ≡ b) × (n.less a b ≡ true)) ⊎ (maximum n a b ≡ a)
  unfolding maximum
  maximum_cases a b = elim (Bool-cases (n.less a b)) [ inl e ↦ inl (rw e, e) | inr e ↦ inr (rw e) ]

  abbrev AreBounded : List (Signal Float) → Type 0
  AreBounded signals = All (λ (s : Signal Float). magnitude s.points ≤ 25) signals

  -- What a score is made of.
  abbrev pub IsAccounted : (List (Signal Float) → List Gap → Type 0) → MacroScore Float → Type 0
  IsAccounted Account f =
      (magnitude f.score ≤ 100)
      × AreBounded f.signals
      × Account f.signals f.data_gaps
      × (f.score ≡ clip 100 (total_points n f.signals))
      × AreContradictions n f.score f.signals f.contradictions

module _ {Float : Type 0} (n : Numeric Float) (laws : RoundLaws n) where
  abbrev within : {x y : Float} → x ≡ y → magnitude (n.whole x) ≤ 25 → magnitude (n.whole y) ≤ 25
  within e h = subst (λ z. magnitude (n.whole z) ≤ 25) e h

  capped_points_bounds : (x : Float) → magnitude (capped_points n x) ≤ 25
  unfolding capped_points clamp
  capped_points_bounds x =
      let high = signal_cap n in
      let low = negate n high in
      elim (maximum_cases n low (minimum n high x)) [
        | inr e ↦ within (sym e) laws.lowest
        | inl (e, above) ↦ elim (minimum_cases n high x) [
          | inr f ↦ within (sym (e ∙ f)) laws.highest
          | inl (f, below) ↦ within (sym (e ∙ f)) (laws.between x (rw f at above) below)
        ]
      ]

  add_signal-AreBounded :
      (s : Signal Float) (scored : Scored Float)
      → magnitude s.points ≤ 25
      → AreBounded n scored.signals
      → AreBounded n (add_signal n s scored).signals
  add_signal-AreBounded s scored h k =
      All-append (λ (t : Signal Float). magnitude t.points ≤ 25) scored.signals (s ∷ []) k (h, tt)

  add_reading-AreBounded :
      (spec : SignalSpec Float) (r : Reading Float) (scored : Scored Float)
      → AreBounded n scored.signals
      → AreBounded n (add_reading n spec r scored).signals
  unfolding signal_points
  add_reading-AreBounded spec (gap g) scored k = k
  add_reading-AreBounded spec (reading x) scored k =
      add_signal-AreBounded _ scored (capped_points_bounds _) k

  score_signals-AreBounded :
      (table : Table) (instant : ℕ) (specs : List (SignalSpec Float)) (scored : Scored Float)
      → AreBounded n scored.signals
      → AreBounded n (score_signals n table instant specs scored).signals
  unfolding score_signals
  score_signals-AreBounded table instant [] scored k = k
  score_signals-AreBounded table instant (spec ∷ specs) scored k =
      let r = signal_reading n table spec instant in
      score_signals-AreBounded table instant specs (add_reading n spec r scored)
        (add_reading-AreBounded spec r scored k)

  score_of-IsAccounted :
      (Account : List (Signal Float) → List Gap → Type 0) (name : String) (instant : ℕ)
      (words : StanceWords) (blind_spots : List String) (confidence : Float) (scored : Scored Float)
      → AreBounded n scored.signals
      → Adds n Account (no_scores n) scored
      → IsAccounted n Account (score_of n name instant words blind_spots confidence scored)
  score_of-IsAccounted Account name instant words blind_spots confidence scored b
        (signals, gaps, s, g, a) =
      (
        clip_bounds 100 (total_points n scored.signals),
        b,
        subst (λ gs. Account scored.signals gs) (sym g) (subst (λ ss. Account ss gaps) (sym s) a),
        refl,
        contradictions_of-AreContradictions n scored.signals
            (clip 100 (total_points n scored.signals)),
      )

  add_link-AreBounded :
      (link : ViewLink Float) (source : Option (MacroScore Float)) (scored : Scored Float)
      → AreBounded n scored.signals
      → AreBounded n (add_link n link source scored).signals
  add_link-AreBounded link none scored k = k
  add_link-AreBounded link (some source) scored k =
      elim (Bool-cases (leb (length source.signals) 0)) [
        | inl e ↦ rw e k
        | inr e ↦ rw e (add_signal-AreBounded _ scored (capped_points_bounds _) k)
      ]

  score_links-AreBounded :
      (dimensions : Dict (MacroScore Float)) (links : List (ViewLink Float)) (scored : Scored Float)
      → AreBounded n scored.signals
      → AreBounded n (score_links n dimensions links scored).signals
  unfolding score_links
  score_links-AreBounded dimensions [] scored k = k
  score_links-AreBounded dimensions (link ∷ links) scored k =
      let source = get link.dimension dimensions in
      score_links-AreBounded dimensions links (add_link n link source scored)
        (add_link-AreBounded link source scored k)

  -- The score of a dimension, and of a view, is the sum of its signals' points, cut at 100 either way;
  -- no signal has more than 25 points either way. Each configured signal of a dimension, in order, gives
  -- a signal with its reading as of the instant and the points of it, or the gap that its reading gives;
  -- each link of a view gives a signal with the dimension's score and the points of it, or a gap where
  -- the dimension is not there or has no signals. Beyond the neutral band of 10, the contradictions name
  -- exactly the signals against the score with at least a fifth of its points; within it, they are the
  -- balance of inputs if there are signals on both sides, and else none. Rounding keeps the bounds of 25.
  pub score-IsAccounted :
      (table : Table) (dimension : DimensionSpec Float) (view : AssetViewSpec Float)
      (dimensions : Dict (MacroScore Float)) (instant : ℕ)
      → IsAccounted n
          (AreSignals n table instant dimension.signals)
          (score_dimension n table dimension instant)
        × IsAccounted n (AreLinks n dimensions view.links) (asset_view n view dimensions instant)
  unfolding score_dimension asset_view
  score-IsAccounted table dimension view dimensions instant =
      let signals = score_signals n table instant dimension.signals (no_scores n) in
      let links = score_links n dimensions view.links (no_scores n) in
      (
        score_of-IsAccounted (AreSignals n table instant dimension.signals) dimension.dimension
            instant dimension.stance_words dimension.blind_spots
            (dimension_confidence n (length signals.signals) (length signals.gaps)) signals
            (score_signals-AreBounded table instant dimension.signals (no_scores n) tt)
            (score_signals-Adds n table instant dimension.signals (no_scores n)),
        score_of-IsAccounted (AreLinks n dimensions view.links) view.view_id instant
            view.stance_words view.blind_spots
            (view_confidence n (inherited n dimensions view.links) (length links.signals)
              (length view.links))
            links (score_links-AreBounded dimensions view.links (no_scores n) tt)
            (score_links-Adds n dimensions view.links (no_scores n)),
      )
