-- ===== src/Common/Numerals/Laws.antt =====
-- How dates and numbers are written, and that the readers read them back.
pub mod Figures
use invest.Base.{
  ℕ, zero, suc, ◌+◌, ◌-◌, ◌*◌, ◌/◌, ◌%◌, ◌<◌, ◌≤◌, ◌≡◌, refl, ap, ◌∙◌, All, length, Bool, true,
  false, Option, none, some, [], ◌∷◌, arith,
}
use invest.Common.Dates.{Date, date, is_date, days_in_month, make_date}
use invest.Common.Text.{Text}
use invest.Common.Numerals.{take_digits, starts, byte_length, month_and_day, after_year, iso_date}

-- `d.isoformat()`
abbrev pub iso_text : ℕ → ℕ → ℕ → Text
iso_text y m d =
    (48 + y / 1000)
    ∷ (48 + y / 100 % 10)
    ∷ (48 + y / 10 % 10)
    ∷ (48 + y % 10)
    ∷ b'-'
    ∷ (48 + m / 10)
    ∷ (48 + m % 10)
    ∷ b'-'
    ∷ (48 + d / 10)
    ∷ (48 + d % 10)
    ∷ []

take_digits-digit :
    (n acc k : ℕ) (s : Text)
    → k < 10
    → take_digits (suc n) acc ((48 + k) ∷ s) ≡ take_digits n (acc * 10 + k) s
unfolding take_digits
take_digits-digit n acc k s h = ground arith

take_digits-zero : (acc n : ℕ) (s : Text) → acc ≡ n → take_digits 0 acc s ≡ some (n, s)
unfolding take_digits
take_digits-zero acc n s h = ap (λ k. some (k, s)) h

pub take_two :
    (m : ℕ) (s : Text) → m < 100 → take_digits 2 0 ((48 + m / 10) ∷ (48 + m % 10) ∷ s) ≡ some (m, s)
take_two m s h =
    take_digits-digit 1 0 (m / 10) _ (omega arith)
    ∙ take_digits-digit 0 (0 * 10 + m / 10) (m % 10) s (omega arith)
    ∙ take_digits-zero _ m s (omega arith)

pub take_four :
    (y : ℕ) (s : Text)
    → y < 10000
    → take_digits 4 0
        ((48 + y / 1000) ∷ (48 + y / 100 % 10) ∷ (48 + y / 10 % 10) ∷ (48 + y % 10) ∷ s)
      ≡ some (y, s)
take_four y s h =
    take_digits-digit 3 0 (y / 1000) _ (omega arith)
    ∙ take_digits-digit 2 (0 * 10 + y / 1000) (y / 100 % 10) _ (omega arith)
    ∙ take_digits-digit 1 ((0 * 10 + y / 1000) * 10 + y / 100 % 10) (y / 10 % 10) _ (omega arith)
    ∙ take_digits-digit 0 (((0 * 10 + y / 1000) * 10 + y / 100 % 10) * 10 + y / 10 % 10) (y % 10) s
        (omega arith)
    ∙ take_digits-zero _ y s (omega arith)

pub is_date_bounds : (y m d : ℕ) → is_date y m d ≡ true → (y < 10000) × (m < 100) × (d < 100)
unfolding is_date days_in_month
is_date_bounds y m d h = ground arith

month_and_day-digits :
    (y m d : ℕ)
    → m < 100
    → d < 100
    → month_and_day y true
        ((48 + m / 10) ∷ (48 + m % 10) ∷ b'-' ∷ (48 + d / 10) ∷ (48 + d % 10) ∷ [])
      ≡ make_date y m d
unfolding month_and_day
month_and_day-digits y m d hm hd = rw (take_two m _ hm) (rw (take_two d [] hd))

after_year-digit :
    (week_date : Text → Option Date) (whole : Text) (y k : ℕ) (s : Text)
    → k < 10
    → after_year week_date whole (y, b'-' ∷ (48 + k) ∷ s) ≡ month_and_day y true ((48 + k) ∷ s)
unfolding starts
after_year-digit week_date whole y k s h = ground arith

-- A text in ASCII has as many bytes as characters.
pub byte_length-ascii : (s : Text) → All (λ c. c < 128) s → byte_length s ≡ length s
unfolding byte_length
byte_length-ascii [] h = refl
byte_length-ascii (c ∷ s) h = ground (arith, byte_length-ascii s h.1)

-- A date is read back from its ISO form.
pub iso_date-iso_text :
    (week_date : Text → Option Date) (y m d : ℕ)
    → is_date y m d ≡ true
    → iso_date week_date (iso_text y m d) ≡ some (date y m d)
unfolding iso_date
iso_date-iso_text week_date y m d h =
    let (hy, hm, hd) = is_date_bounds y m d h in
    rw (byte_length-ascii (iso_text y m d) (omega arith)) (
      rw (take_four y _ hy) (
        after_year-digit week_date _ y (m / 10) _ (omega arith)
        ∙ month_and_day-digits y m d hm hd
        ∙ rw h))

-- `d.strftime("%Y%m%d")`
abbrev pub compact_text : ℕ → ℕ → ℕ → Text
compact_text y m d =
    (48 + y / 1000)
    ∷ (48 + y / 100 % 10)
    ∷ (48 + y / 10 % 10)
    ∷ (48 + y % 10)
    ∷ (48 + m / 10)
    ∷ (48 + m % 10)
    ∷ (48 + d / 10)
    ∷ (48 + d % 10)
    ∷ []

month_and_day-compact :
    (y m d : ℕ)
    → m < 100
    → d < 100
    → month_and_day y false ((48 + m / 10) ∷ (48 + m % 10) ∷ (48 + d / 10) ∷ (48 + d % 10) ∷ [])
      ≡ make_date y m d
unfolding month_and_day
month_and_day-compact y m d hm hd = rw (take_two m _ hm) (rw (take_two d [] hd))

after_year-compact :
    (week_date : Text → Option Date) (whole : Text) (y k : ℕ) (s : Text)
    → k < 10
    → after_year week_date whole (y, (48 + k) ∷ s) ≡ month_and_day y false ((48 + k) ∷ s)
unfolding starts
after_year-compact week_date whole y k s h = ground arith

-- A date is read back from its form without separators, too.
pub iso_date-compact_text :
    (week_date : Text → Option Date) (y m d : ℕ)
    → is_date y m d ≡ true
    → iso_date week_date (compact_text y m d) ≡ some (date y m d)
unfolding iso_date
iso_date-compact_text week_date y m d h =
    let (hy, hm, hd) = is_date_bounds y m d h in
    rw (byte_length-ascii (compact_text y m d) (omega arith)) (
      rw (take_four y _ hy) (
        after_year-compact week_date _ y (m / 10) _ (omega arith)
        ∙ month_and_day-compact y m d hm hd
        ∙ rw h))
