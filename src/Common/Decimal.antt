-- ===== src/Common/Decimal.antt =====
-- Python's `decimal.Decimal` as the code compares it: by number, whatever the trailing zeros.
use invest.Base.{ℕ, ◌^◌, Bool, true, false}
use invest.Base.Int.{ℤ, scale, eq_ℤ}

-- `finite c s` is c / 10^s. `NaN` and the infinities are decimals that `Decimal(text)` reads too.
pub data Decimal : Type 0 where
  finite : ℤ → ℕ → Decimal
  plus_infinity minus_infinity nan : Decimal

-- `==`: a NaN is equal to nothing, itself included.
unfoldable pub decimal_eq : Decimal → Decimal → Bool
decimal_eq (finite a s) (finite b t) = eq_ℤ (scale a (10 ^ t)) (scale b (10 ^ s))
decimal_eq plus_infinity plus_infinity = true
decimal_eq minus_infinity minus_infinity = true
decimal_eq _ _ = false
