-- ===== src/Common/Dates.antt =====
-- Python's `date`, as the number YYYYMMDD of its ISO form: `==` and `<` on dates are those of the
-- numbers.
use invest.Base.{
  ℕ, ◌-◌, ◌+◌, ◌*◌, ◌/◌, ◌%◌, Bool, not, ◌&&◌, ◌||◌, Option, none, some, leb, ◌==◌, if◌then◌else◌,
}

abbrev pub Date : Type 0
Date = ℕ

-- `date(year, month, day)`
abbrev pub date : ℕ → ℕ → ℕ → Date
date year month day = year * 10000 + month * 100 + day

abbrev pub year_of : Date → ℕ
year_of d = d / 10000

abbrev pub month_of : Date → ℕ
month_of d = d / 100 % 100

abbrev pub day_of : Date → ℕ
day_of d = d % 100

unfoldable pub is_leap : ℕ → Bool
is_leap y = (y % 4 == 0) && (not (y % 100 == 0) || (y % 400 == 0))

unfoldable pub days_in_month : ℕ → ℕ → ℕ
unfolding is_leap
days_in_month y m =
    if m == 2
    then (if is_leap y then 29 else 28)
    else if (m == 4) || ((m == 6) || ((m == 9) || (m == 11)))
    then 30
    else 31

-- The dates that there are, from the year 1 to the year 9999.
unfoldable pub is_date : ℕ → ℕ → ℕ → Bool
unfolding days_in_month
is_date y m d =
    (leb 1 y && leb y 9999) && ((leb 1 m && leb m 12) && (leb 1 d && leb d (days_in_month y m)))

-- `date(year, month, day)`, which raises ValueError where there is no such date.
abbrev pub make_date : ℕ → ℕ → ℕ → Option Date
make_date y m d = if is_date y m d then some (date y m d) else none

abbrev leap_day : ℕ → ℕ → ℕ
leap_day y m = if is_leap y && leb 3 m then 1 else 0

-- The days of the months before the month, in a year that is no leap year.
abbrev month_days : ℕ → ℕ
month_days m =
    if m == 1
    then 0
    else if m == 2
    then 31
    else if m == 3
    then 59
    else if m == 4
    then 90
    else if m == 5
    then 120
    else if m == 6
    then 151
    else if m == 7
    then 181
    else if m == 8
    then 212
    else if m == 9
    then 243
    else if m == 10
    then 273
    else if m == 11
    then 304
    else 334

-- The days from the first of January of the year 1 to the date.
unfoldable pub days_before : Date → ℕ
unfolding is_leap
days_before d =
    let y = year_of d - 1 in
    y * 365
    + y / 4
    - y / 100
    + y / 400
    + (month_days (month_of d) + leap_day (year_of d) (month_of d))
    + (day_of d - 1)
