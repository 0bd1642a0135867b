-- ===== src/Prediction/Features/Periods.antt =====
-- `next_period` of mios/prediction/features.py against `_previous_period`.
use invest.Base.{
  ℕ, ◌+◌, ◌≡◌, ◌≤◌, ◌<◌, refl, sym, ap, ==_iff, ◌∙◌, inl, inr, ◌==◌, arith, Bool-cases, ltb, false,
}
use invest.Common.Dates.{Date, date, year_of, month_of}
use invest.Common.Errors.{ok, err, crash}
use invest.Common.Labels.{monthly}
use invest.Validation.Scoring.{previous_period}
use invest.Prediction.Features.{first_of, next_period}

year_date : (y m d : ℕ) → m ≤ 12 → d ≤ 31 → year_of (date y m d) ≡ y
year_date y m d hm hd = omega arith

month_date : (y m d : ℕ) → m ≤ 12 → d ≤ 31 → month_of (date y m d) ≡ m
month_date y m d hm hd = omega arith

previous_of_january : (y : ℕ) → previous_period (date (y + 1) 1 1) ≡ date y 12 1
previous_of_january y =
    let january : month_of (date (y + 1) 1 1) ≡ 1 = omega arith in ground (arith, january)

previous_of_later : (y m : ℕ) → 1 ≤ m → m ≤ 11 → previous_period (date y (m + 1) 1) ≡ date y m 1
previous_of_later y m lm hm =
    let month : month_of (date y (m + 1) 1) ≡ m + 1 = omega arith in
    let year : year_of (date y (m + 1) 1) ≡ y = omega arith in ground (arith, month, year)

first_of_ok : (y m : ℕ) → y ≤ 9999 → first_of y m ≡ ok (date y m 1)
unfolding first_of
first_of_ok y m h = let e : ltb 9999 y ≡ false = ground arith in rw e

-- For a series published monthly, the period after any day of a month before December 9999 is the
-- first of the next month: it is after the day, and the period before it is the first of the day's
-- month. After a day of December 9999 there is none, and the call raises.
pub next_period-previous :
    (y m d : ℕ)
    → 1 ≤ y
    → 1 ≤ m
    → m ≤ 12
    → 1 ≤ d
    → d ≤ 31
    → date y m d < date 9999 12 1
    → ((p : Date) × (next_period (date y m d) monthly ≡ ok p)
        × (date y m d < p)
        × (previous_period p ≡ date y m 1))
      × (next_period (date 9999 12 d) monthly ≡ err (crash "ValueError"))
unfolding next_period
next_period-previous y m d ly lm hm ld hd before = (
  rw (year_date y m d hm hd, month_date y m d hm hd)
      (elim (Bool-cases (m == 12)) [
        | inl e ↦
            let december : m ≡ 12 = (==_iff m 12).0 e in
            rw (e, first_of_ok (y + 1) 1 (omega (arith, december)))
              (
                date (y + 1) 1 1,
                refl,
                omega arith,
                previous_of_january y ∙ ap (λ k. date y k 1) (sym december),
              )
        | inr e ↦
            rw (e, first_of_ok y (m + 1) (omega arith))
              (date y (m + 1) 1, refl, omega arith, previous_of_later y m lm (ground (arith, e)))
      ]),
  unfold first_of in
      rw (year_date 9999 12 d (omega arith) hd, month_date 9999 12 d (omega arith) hd),
)
