-- ===== src/Analysis/Records.antt =====
-- The records of mios/analysis/macro.py and mios/config/analysis.py, and the arithmetic on points,
-- which are integers.
use invest.Base.{ℕ, zero, suc, ◌+◌, Bool, String, List, [], ◌∷◌, ltb, str_eq, any, if◌then◌else◌}
use invest.Base.Int.{ℤ, pos, negsuc, pos_part, neg_part, ltb_ℤ}

-- `Measure`
pub data Measure : Type 0 where
  level_z change_z trend_z : Measure

pub record SignalSpec (Float : Type 0) : Type 0 where
  pub series_id : String
  pub label : String
  pub measure : Measure
  pub weight : Float
  pub min_history : ℕ

-- (positive, neutral, negative)
pub record StanceWords : Type 0 where
  pub positive : String
  pub neutral : String
  pub negative : String

pub record DimensionSpec (Float : Type 0) : Type 0 where
  pub dimension : String
  pub stance_words : StanceWords
  pub signals : List (SignalSpec Float)
  pub blind_spots : List String

pub record ViewLink (Float : Type 0) : Type 0 where
  pub dimension : String
  pub weight : Float

pub record AssetViewSpec (Float : Type 0) : Type 0 where
  pub view_id : String
  pub asset_id : String
  pub stance_words : StanceWords
  pub links : List (ViewLink Float)
  pub blind_spots : List String

-- A `Signal`, with the series or dimension that it is about.
pub record Signal (Float : Type 0) : Type 0 where
  pub about : String
  pub value : Float
  pub points : ℤ

-- What a line of `data_gaps` is about.
pub data Gap : Type 0 where
  short_history no_readings no_spread not_computed no_signals : String → Gap

-- What a line of `contradictions` is about: the inputs balance, or one of them opposes the score.
pub data Contradiction : Type 0 where
  balanced : Contradiction
  opposing : String → ℤ → Contradiction

pub record MacroScore (Float : Type 0) : Type 0 where
  pub dimension : String
  pub as_of : ℕ
  pub score : ℤ
  pub stance : String
  pub confidence : Float
  pub signals : List (Signal Float)
  pub contradictions : List Contradiction
  pub data_gaps : List Gap
  pub blind_spots : List String

pub data Reading (Float : Type 0) : Type 0 where
  reading : Float → Reading Float
  gap : Gap → Reading Float

-- The loop's variables.
pub record Scored (Float : Type 0) : Type 0 where
  pub signals : List (Signal Float)
  pub gaps : List Gap

abbrev pub magnitude : ℤ → ℕ
magnitude x = pos_part x + neg_part x

-- `max(-bound, min(bound, x))`
unfoldable pub clip : ℕ → ℤ → ℤ
clip bound (pos k) = if ltb bound k then pos bound else pos k
clip zero (negsuc k) = pos 0
clip (suc bound) (negsuc k) = if ltb bound k then negsuc bound else negsuc k

abbrev pub is_positive : ℤ → Bool
is_positive x = ltb_ℤ (pos 0) x

abbrev pub is_negative : ℤ → Bool
is_negative x = ltb_ℤ x (pos 0)

-- `_stance_for`
unfoldable pub stance_for : ℤ → StanceWords → String
stance_for score words =
    if ltb_ℤ (pos 15) score
    then words.positive
    else if ltb_ℤ score (negsuc 14)
    then words.negative
    else words.neutral

-- `Stance`, and `stance_to_label`.
pub data Stance : Type 0 where
  bullish bearish neutral : Stance

unfoldable pub stance_to_label : String → Stance
stance_to_label stance =
    if any (str_eq stance) ("hawkish" ∷ "bullish" ∷ "tightening" ∷ "hot" ∷ [])
    then bullish
    else if any (str_eq stance) ("dovish" ∷ "bearish" ∷ "easing" ∷ "cooling" ∷ [])
    then bearish
    else neutral
