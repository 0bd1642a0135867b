-- ===== src/Common/Floats.antt =====
-- Python's `float`: its arithmetic is that of the machine, so the operations that the code uses are
-- parameters.
use invest.Base.{Bool}
use invest.Common.Decimal.{Decimal}

pub record FloatOps (Float : Type 0) : Type 0 where
  pub of_decimal : Decimal → Float
  pub minus : Float → Float → Float
  pub divide : Float → Float → Float
  pub absolute : Float → Float
  pub one : Float
  -- `x == 0` and `x > 0`
  pub is_zero : Float → Bool
  pub is_positive : Float → Bool
