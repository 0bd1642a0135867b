-- ===== src/Common/Numeric.antt =====
-- The float arithmetic of forecasts and macro scores, beside that of Common.Floats: `+`, `*`, `<`,
-- `==`, `sum`, `round` and the functions of `statistics` and `math` are parameters; `min` and `max` are
-- written over them.
use invest.Base.{ℕ, ◌≡◌, arith, Bool, true, false, List, if◌then◌else◌}
use invest.Base.Int.{ℤ, pos}
use invest.Common.Decimal.{finite}
use invest.Common.Floats.{FloatOps}

pub record Numeric (Float : Type 0) : Type 0 where
  pub base : FloatOps Float
  pub plus : Float → Float → Float
  pub times : Float → Float → Float
  pub less : Float → Float → Bool
  pub equal : Float → Float → Bool
  -- `sum`, `fmean`, `pstdev`, `erf` and `sqrt`
  pub total : List Float → Float
  pub mean : List Float → Float
  pub spread : List Float → Float
  pub erf : Float → Float
  pub sqrt : Float → Float
  -- `round(x, n)`, `round(x)` and `float(n)`
  pub rounded : ℕ → Float → Float
  pub whole : Float → ℤ
  pub of_whole : ℤ → Float

module _ {Float : Type 0} (n : Numeric Float) where
  -- A literal with `places` digits after the point.
  abbrev pub literal : ℕ → ℕ → Float
  literal digits places = n.base.of_decimal (finite (pos digits) places)

  abbrev pub negate : Float → Float
  negate x = n.base.minus (literal 0 0) x

  -- `min(a, b)` and `max(a, b)`: the first, unless the second is less or greater.
  unfoldable pub minimum : Float → Float → Float
  minimum a b = if n.less b a then b else a

  unfoldable pub maximum : Float → Float → Float
  maximum a b = if n.less a b then b else a

  -- `max(low, min(high, x))`
  unfoldable pub clamp : Float → Float → Float → Float
  unfolding minimum maximum
  clamp low high x = maximum low (minimum high x)

-- What the code relies on: `<` is irreflexive and asymmetric.
pub record OrderLaws {Float : Type 0} (n : Numeric Float) : Type 0 where
  pub irreflexive : (x : Float) → n.less x x ≡ false
  pub asymmetric : (x y : Float) → n.less x y ≡ true → n.less y x ≡ false

module _ {Float : Type 0} (n : Numeric Float) (laws : OrderLaws n) where
  -- A clamped value is not below the lower and not above the higher bound.
  pub clamp_bounds :
      (low high x : Float)
      → n.less high low ≡ false
      → (n.less (clamp n low high x) low ≡ false) × (n.less high (clamp n low high x) ≡ false)
  unfolding clamp minimum maximum
  clamp_bounds low high x h = ground (
    arith,
    laws.irreflexive low,
    laws.irreflexive high,
    laws.asymmetric x high,
    laws.asymmetric low x,
    laws.asymmetric low high,
  )
