-- ===== src/Common/Errors.antt =====
-- mios/common/errors.py and the ways in which a call of the scheduler ends.
use invest.Base.{String}

-- What a call raises: a `MiosError`, its subclass `BreakerOpenError`, or any other exception.
pub data Raised : Type 0 where
  mios_error : String → Raised
  breaker_open : String → Raised
  crash : String → Raised

pub data Result {ℓ} (A : Type ℓ) : Type ℓ where
  ok : A → Result A
  err : Raised → Result A

infixl 10 ◌>>=◌
abbrev pub ◌>>=◌ {ℓ κ} : {A : Type ℓ} {B : Type κ} → Result A → (A → Result B) → Result B
ok a >>= f = f a
err e >>= f = err e
