-- ===== src/Validation/Releases/Fixed.antt =====
-- `ReleaseBuilder._record` at several instants, and without the month before.
use mathlib.Core.Option.{none-ne-some}
use invest.Base.{
  ℕ, ◌≤◌, ◌<◌, ◌≡◌, refl, sym, ap, inl, inr, Option, none, some, String, List, [], ◌++◌, All,
  All-imp, Option-cases, arith, str_eq, ◌==◌, ◌&&◌, filter, filter_none, false, sort_by,
}
use invest.Common.Decimal.{Decimal}
use invest.Series.Repo.{SeriesSpec, Table, as_of, known_rows, newest_first, distinct_from, is_known}
use invest.Series.Repo.AsOf.{as_of-append_later}
use invest.Series.Normalize.{spec_of}
use invest.Validation.Scoring.{first_print, previous_period, last_value}
use invest.Validation.Scoring.Fixed.{first_print_later, first_print_known}
use invest.Validation.Releases.{Release, just_before, value_at, release_from, release_of}

value_at-append_later :
    (table later : Table) (series_id : String) (d t i : ℕ)
    → t ≤ i
    → All (λ r. i < r.vintage_at) later
    → value_at (table ++ later) series_id d t ≡ value_at table series_id d t
unfolding value_at
value_at-append_later table later series_id d t i le h = ap last_value (
    as_of-append_later table later series_id t (some d) (some d)
      (All-imp later (λ r lt. omega arith) h))

module _ (through_float : Decimal → Decimal) where
  -- A release that can be recorded at an instant is the same release, with the same figures, at any
  -- later instant and whatever rows are added with vintages after the first instant.
  pub release_of_fixed :
      (table later : Table) (registry : List SeriesSpec) (series_id : String) (period i i' : ℕ)
      (r : Release)
      → All (λ o. i < o.vintage_at) later
      → i ≤ i'
      → release_of through_float table registry series_id period i ≡ some r
      → release_of through_float (table ++ later) registry series_id period i' ≡ some r
  unfolding release_of
  release_of_fixed table later registry series_id period i i' r h le e =
      elim (Option-cases (first_print table series_id period i)) [
        | inl n ↦ absurd (none-ne-some r (rw n at e))
        | inr (print, p) ↦
            let known : print.1 ≤ i = first_print_known table series_id period i print p in
            let prior = previous_period period in
            rw (first_print_later table later series_id period i i' print h le p) (
              rw
                (
                  value_at-append_later table later series_id prior (just_before print.1) i
                      (omega arith) h,
                  value_at-append_later table later series_id prior print.1 i known h,
                )
                (rw p at e))
      ]

no_value_at :
    (table : Table) (series_id : String) (d t : ℕ)
    → All (λ r. (str_eq r.series_id series_id && (r.observation_date == d)) ≡ false) table
    → value_at table series_id d t ≡ none
unfolding value_at as_of known_rows newest_first distinct_from sort_by
no_value_at table series_id d t h =
    let gone : filter (is_known series_id t (some d) (some d)) table ≡ [] =
      filter_none (is_known series_id t (some d) (some d)) table
        (All-imp table (λ r e. ground (arith, e)) h) in
    rw gone refl

module _ (through_float : Decimal → Decimal) where
  release_from-none :
      (series_id : String) (period : ℕ) (print : Decimal × ℕ) (before after : Option Decimal)
      (spec : Option SeriesSpec)
      → before ≡ none
      → release_from through_float series_id period print before after spec ≡ none
  release_from-none series_id period print none after spec e = refl
  release_from-none series_id period print (some v) after spec e = absurd (none-ne-some v (sym e))

  -- A period of a series is never recorded as a release if the series has no row dated on the first
  -- day of the month before it, whatever figures it has for other periods.
  pub release_of_no_prior :
      (table : Table) (registry : List SeriesSpec) (series_id : String) (period instant : ℕ)
      → All
          (λ r.
            (str_eq r.series_id series_id && (r.observation_date == previous_period period))
            ≡ false)
          table
      → release_of through_float table registry series_id period instant ≡ none
  unfolding release_of
  release_of_no_prior table registry series_id period instant h =
      elim (Option-cases (first_print table series_id period instant)) [
        | inl n ↦ rw n refl
        | inr (print, p) ↦ rw p (
            release_from-none series_id period print _ _ (spec_of series_id registry)
              (no_value_at table series_id (previous_period period) (just_before print.1) h))
      ]
