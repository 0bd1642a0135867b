-- ===== src/Common/Numerals.antt =====
-- What Python's `int(s)`, `Decimal(s)` and `date.fromisoformat(s)` read. Digits are the ASCII ones.
pub mod Laws
use invest.Base.{
  ℕ, zero, suc, ◌+◌, ◌-◌, ◌*◌, ◌^◌, Bool, true, false, not, ◌&&◌, ◌||◌, Option, none, some, List,
  [], ◌∷◌, length, ltb, ◌==◌, if◌then◌else◌, filter,
}
use invest.Base.Int.{ℤ, pos, sub_ℕ, scale}
use invest.Common.Dates.{Date, make_date}
use invest.Common.Decimal.{Decimal, finite, plus_infinity, minus_infinity, nan}
use invest.Common.Text.{
  Text, same_text, is_literal, is_digit, digit, is_space, strip, lower, is_empty,
}

infixl 10 ◌>>=◌
abbrev pub ◌>>=◌ {ℓ κ} : {A : Type ℓ} {B : Type κ} → Option A → (A → Option B) → Option B
none >>= f = none
some a >>= f = f a

-- The number that digits stand for, after those of `acc`.
unfoldable pub number_from : ℕ → Text → ℕ
number_from acc [] = acc
number_from acc (c ∷ s) = number_from (acc * 10 + digit c) s

unfoldable pub all_digits : Text → Bool
all_digits [] = true
all_digits (c ∷ s) = is_digit c && all_digits s

-- A sign, and what follows it.
unfoldable pub sign_of : Text → Bool × Text
sign_of [] = (false, [])
sign_of (c ∷ s) = if c == b'-' then (true, s) else if c == b'+' then (false, s) else (false, c ∷ s)

abbrev pub signed : Bool → ℕ → ℤ
signed true n = sub_ℕ 0 n
signed false n = pos n

-- Digits with single underscores between them; `after` says that a digit stands before.
unfoldable pub grouped_from : Bool → ℕ → Text → Option ℕ
grouped_from after acc [] = if after then some acc else none
grouped_from after acc (c ∷ s) =
    let next = grouped_from true (acc * 10 + digit c) s in
    let gap = grouped_from false acc s in
    if is_digit c then next else if after && (c == b'_') then gap else none

-- `int(s)`
unfoldable pub read_int : Text → Option ℤ
read_int s =
    let (minus, digits) = sign_of (strip s) in
    do n ← grouped_from false 0 digits; some (signed minus n)

-- The digits in front, and what follows them.
abbrev pub with_digit : ℕ → Text × Text → Text × Text
with_digit c (ds, rest) = (c ∷ ds, rest)

unfoldable pub span_digits : Text → Text × Text
span_digits [] = ([], [])
span_digits (c ∷ s) =
    let more = span_digits s in if is_digit c then with_digit c more else ([], c ∷ s)

-- 10 ^ exponent times a number with `scale` digits after the point.
abbrev pub shifted : ℤ → ℕ → Bool → ℕ → Decimal
shifted n places minus exponent =
    if minus then finite n (places + exponent) else finite (scale n (10 ^ exponent)) places

-- The digits of an exponent, after its sign.
abbrev pub exponent_of : Bool × Text → Option (Bool × ℕ)
exponent_of (minus, ds) =
    if all_digits ds && not (is_empty ds) then some (minus, number_from 0 ds) else none

-- What follows the digits: nothing, or `e` and an exponent.
unfoldable pub read_exponent : Text → Option (Bool × ℕ)
unfolding sign_of all_digits number_from
read_exponent [] = some (false, 0)
read_exponent (c ∷ s) = if (c == b'e') || (c == b'E') then exponent_of (sign_of s) else none

-- What follows the digits before the point.
unfoldable pub span_fraction : Text → Text × Text
unfolding span_digits
span_fraction [] = ([], [])
span_fraction (c ∷ s) = if c == b'.' then span_digits s else ([], c ∷ s)

-- NaN may be signalling and may carry digits.
unfoldable pub is_nan : Text → Bool
unfolding all_digits
is_nan (c ∷ d ∷ e ∷ s) = is_literal "nan" (c ∷ d ∷ e ∷ []) && all_digits s
is_nan _ = false

abbrev pub drop_s : Text → Text
drop_s [] = []
drop_s (c ∷ s) = if c == b's' then s else c ∷ s

abbrev pub is_infinity : Text → Bool
is_infinity s = is_literal "inf" s || is_literal "infinity" s

abbrev pub finite_of : Bool → Text × Text → (Text → Text × Text) → Option Decimal
finite_of minus (whole, rest) fraction_of =
    let (fraction, tail) = fraction_of rest in
    if is_empty whole && is_empty fraction then none else do
      (down, exponent) ← read_exponent tail
      some (
          shifted (signed minus (number_from (number_from 0 whole) fraction)) (length fraction) down
            exponent)

-- A number with its sign taken off.
unfoldable pub read_unsigned : Bool → Text → Option Decimal
read_unsigned minus s =
    if is_infinity (lower s)
    then some (if minus then minus_infinity else plus_infinity)
    else if is_nan (drop_s (lower s))
    then some nan
    else finite_of minus (span_digits s) span_fraction

abbrev pub no_underscores : Text → Text
no_underscores s = filter (λ c. not (c == b'_')) s

-- `Decimal(s)`, which raises InvalidOperation where the text is no number. Python also refuses an
-- exponent of nineteen digits and more.
unfoldable pub read_decimal : Text → Option Decimal
read_decimal s = let (minus, rest) = sign_of (no_underscores (strip s)) in read_unsigned minus rest

-- `parse_digits`: n digits, and what follows them.
unfoldable pub take_digits : ℕ → ℕ → Text → Option (ℕ × Text)
take_digits zero acc s = some (acc, s)
take_digits (suc n) acc [] = none
take_digits (suc n) acc (c ∷ s) =
    let more = take_digits n (acc * 10 + digit c) s in if is_digit c then more else none

unfoldable pub starts : ℕ → Text → Bool
starts c [] = false
starts c (d ∷ s) = d == c

abbrev pub rest_of : Text → Text
rest_of [] = []
rest_of (c ∷ s) = s

-- The separator between the month and the day, if there was one after the year.
abbrev pub separator : Bool → Text → Option Text
separator sep s = if sep then (if starts b'-' s then some (rest_of s) else none) else some s

-- The bytes of the text in UTF-8.
unfoldable pub byte_length : Text → ℕ
byte_length [] = 0
byte_length (c ∷ s) =
    (if ltb c 0x80 then 1 else if ltb c 0x800 then 2 else if ltb c 0x10000 then 3 else 4)
    + byte_length s

-- What follows the year and its separator.
unfoldable pub month_and_day : ℕ → Bool → Text → Option Date
unfolding starts
month_and_day year sep s = do
  (month, p) ← take_digits 2 0 s
  q ← separator sep p
  (day, _) ← take_digits 2 0 q
  make_date year month day

-- `week_date` is the reader of the forms with a week, YYYY-Www-D.
module _ (week_date : Text → Option Date) where
  abbrev pub after_year : Text → ℕ × Text → Option Date
  after_year whole (year, p) =
      let sep = starts b'-' p in
      let s = if sep then rest_of p else p in
      if starts b'W' s then week_date whole else month_and_day year sep s

  -- `date.fromisoformat(s)`, which raises ValueError where this is none. As in CPython, what follows
  -- the eight digits of YYYYMMDD in a text of ten bytes is not looked at.
  unfoldable pub iso_date : Text → Option Date
  unfolding starts
  iso_date s =
      let n = byte_length s in
      if (n == 7) || ((n == 8) || (n == 10))
      then (do year ← take_digits 4 0 s; after_year s year)
      else none
