-- ===== src/Validation/Scoring/Fixed.antt =====
-- `actual_change` of mios/validation/scoring.py at several instants.
use mathlib.Core.Option.{some-injective, none-ne-some}
use invest.Base.{
  ℕ, ◌≤◌, ◌<◌, ◌≡◌, refl, sym, ap, ◌∙◌, subst, inl, inr, Option, none, some, String, List, [], ◌∷◌,
  ◌++◌, true, false, ltb, leb, ◌==◌, ◌&&◌, str_eq, filter, sort_by, All, All-imp, All-filter,
  filter-append, filter_none, Bool-cases, Option-cases, arith, IsSorted, sort_by-IsSorted,
  filter-sort_by, append-nil, ltb→le, ltb→lt,
}
use invest.Common.Decimal.{Decimal}
use invest.Common.Dates.{Date}
use invest.Common.Floats.{FloatOps}
use invest.Series.Repo.{Observation, Table, vintage_at_of, revisions}
use invest.Series.Repo.AsOf.{as_of-append_later}
use invest.Validation.Scoring.{
  TargetSpec, print_or, first_valued, first_print, previous_period, last_value, previous_value,
  actual_change,
}

abbrev known_by : ℕ → List Observation → List Observation
known_by instant = filter (λ r. leb r.vintage_at instant)

first_valued-known_by :
    (h : List Observation) (i : ℕ)
    → IsSorted vintage_at_of h
    → first_valued h i ≡ first_valued (known_by i h) i
unfolding first_valued
first_valued-known_by [] i s = refl
first_valued-known_by (r ∷ h) i s = elim (Bool-cases (ltb i r.vintage_at)) [
  | inl e ↦
      let gone : known_by i (r ∷ h) ≡ [] =
        filter_none (λ t. leb t.vintage_at i) (r ∷ h)
          (ground arith, All-imp h (λ t le. ground (arith, ltb→lt i r.vintage_at e)) s.0) in
      rw (e, gone) refl
  | inr e ↦
      let kept : leb r.vintage_at i ≡ true = ground (arith, e) in
      rw (e, kept, e) (ap (print_or r.value r.vintage_at) (first_valued-known_by h i s.1))
]

print_or_later :
    (value : Option Decimal) (vintage : ℕ) (rest rest' : Option (Decimal × ℕ)) (x : Decimal × ℕ)
    → (rest ≡ some x → rest' ≡ some x)
    → print_or value vintage rest ≡ some x
    → print_or value vintage rest' ≡ some x
print_or_later none vintage rest rest' x f e = f e
print_or_later (some v) vintage rest rest' x f e = e

-- A later instant finds the same print.
first_valued_later :
    (h : List Observation) (i later : ℕ) (x : Decimal × ℕ)
    → i ≤ later
    → first_valued h i ≡ some x
    → first_valued h later ≡ some x
unfolding first_valued
first_valued_later [] i later x le e = e
first_valued_later (r ∷ h) i later x le e = elim (Bool-cases (ltb i r.vintage_at)) [
  | inl q ↦ absurd (none-ne-some x (rw q at e))
  | inr q ↦
      let q' : ltb later r.vintage_at ≡ false = ground (arith, ltb→le i r.vintage_at q) in
      rw q' (
        print_or_later r.value r.vintage_at (first_valued h i) (first_valued h later) x
          (first_valued_later h i later x le) (rw q at e))
]

print_or_known :
    (value : Option Decimal) (vintage i : ℕ) (rest : Option (Decimal × ℕ)) (x : Decimal × ℕ)
    → vintage ≤ i
    → (rest ≡ some x → x.1 ≤ i)
    → print_or value vintage rest ≡ some x
    → x.1 ≤ i
print_or_known none vintage i rest x le f e = f e
print_or_known (some v) vintage i rest x le f e =
    subst (λ y. y.1 ≤ i) (some-injective (v, vintage) x e) le

-- A print is known at the instant that it is looked up for.
first_valued_known :
    (h : List Observation) (i : ℕ) (x : Decimal × ℕ) → first_valued h i ≡ some x → x.1 ≤ i
unfolding first_valued
first_valued_known [] i x e = absurd (none-ne-some x e)
first_valued_known (r ∷ h) i x e = elim (Bool-cases (ltb i r.vintage_at)) [
  | inl q ↦ absurd (none-ne-some x (rw q at e))
  | inr q ↦
      print_or_known r.value r.vintage_at i (first_valued h i) x (ltb→le i r.vintage_at q)
        (first_valued_known h i x) (rw q at e)
]

abbrev of_series_period : String → Date → List Observation → List Observation
of_series_period series_id d =
    filter (λ r. str_eq r.series_id series_id && (r.observation_date == d))

known_revisions :
    (table later : Table) (series_id : String) (d i : ℕ)
    → All (λ r. i < r.vintage_at) later
    → known_by i (revisions (table ++ later) series_id d) ≡ known_by i (revisions table series_id d)
unfolding revisions
known_revisions table later series_id d i h =
    filter-sort_by vintage_at_of (λ r. leb r.vintage_at i)
      (of_series_period series_id d (table ++ later))
    ∙ ap (λ rows. sort_by vintage_at_of (known_by i rows))
        (filter-append (λ r. str_eq r.series_id series_id && (r.observation_date == d)) table later)
    ∙ ap (sort_by vintage_at_of) (
        filter-append (λ r. leb r.vintage_at i) (of_series_period series_id d table)
          (of_series_period series_id d later))
    ∙ ap (λ rows. sort_by vintage_at_of (known_by i (of_series_period series_id d table) ++ rows))
        (filter_none (λ r. leb r.vintage_at i) (of_series_period series_id d later)
          (All-filter (λ r. leb r.vintage_at i ≡ false)
            (λ r. str_eq r.series_id series_id && (r.observation_date == d)) later
            (All-imp later (λ r lt _. ground arith) h)))
    ∙ ap (sort_by vintage_at_of) (append-nil (known_by i (of_series_period series_id d table)))
    ∙ sym (
        filter-sort_by vintage_at_of (λ r. leb r.vintage_at i) (of_series_period series_id d table))

revisions-IsSorted :
    (table : Table) (series_id : String) (d : ℕ)
    → IsSorted vintage_at_of (revisions table series_id d)
unfolding revisions
revisions-IsSorted table series_id d = sort_by-IsSorted vintage_at_of _

pub first_print-append_later :
    (table later : Table) (series_id : String) (d i : ℕ)
    → All (λ r. i < r.vintage_at) later
    → first_print (table ++ later) series_id d i ≡ first_print table series_id d i
unfolding first_print
first_print-append_later table later series_id d i h =
    first_valued-known_by (revisions (table ++ later) series_id d) i
      (revisions-IsSorted (table ++ later) series_id d)
    ∙ ap (λ rows. first_valued rows i) (known_revisions table later series_id d i h)
    ∙ sym (
        first_valued-known_by (revisions table series_id d) i
          (revisions-IsSorted table series_id d))

-- Rows that are published after a print do not change the print, at whatever instant from its
-- lookup on.
pub first_print_later :
    (table later : Table) (series_id : String) (d i i' : ℕ) (x : Decimal × ℕ)
    → All (λ r. i < r.vintage_at) later
    → i ≤ i'
    → first_print table series_id d i ≡ some x
    → first_print (table ++ later) series_id d i' ≡ some x
unfolding first_print
first_print_later table later series_id d i i' x h le e =
    first_valued_later (revisions (table ++ later) series_id d) i i' x le
      (first_print-append_later table later series_id d i h ∙ e)

pub first_print_known :
    (table : Table) (series_id : String) (d i : ℕ) (x : Decimal × ℕ)
    → first_print table series_id d i ≡ some x
    → x.1 ≤ i
unfolding first_print
first_print_known table series_id d i x e = first_valued_known _ i x e

previous_value-append_later :
    (table later : Table) (series_id : String) (d t i : ℕ)
    → t ≤ i
    → All (λ r. i < r.vintage_at) later
    → previous_value (table ++ later) series_id d t ≡ previous_value table series_id d t
unfolding previous_value
previous_value-append_later table later series_id d t i le h = ap last_value (
    as_of-append_later table later series_id t none (some (previous_period d))
      (All-imp later (λ r lt. omega arith) h))

module _ {Float : Type 0} (ops : FloatOps Float) where
  -- The realised value of a forecast, once it is known, is fixed: whatever rows are added with
  -- vintages after the instant of the scoring, and at whatever later instant the scoring runs
  -- again, the value and its vintage are the same.
  pub actual_change_fixed :
      (table later : Table) (spec : TargetSpec) (period i i' : ℕ) (x : Float × ℕ)
      → All (λ r. i < r.vintage_at) later
      → i ≤ i'
      → actual_change ops table spec period i ≡ some x
      → actual_change ops (table ++ later) spec period i' ≡ some x
  unfolding actual_change
  actual_change_fixed table later spec period i i' x h le e =
      elim (Option-cases (first_print table spec.series_id period i)) [
        | inl n ↦ absurd (none-ne-some x (rw n at e))
        | inr (print, p) ↦
            let known : print.1 ≤ i = first_print_known table spec.series_id period i print p in
            rw (first_print_later table later spec.series_id period i i' print h le p) (
              rw (previous_value-append_later table later spec.series_id period print.1 i known h)
                (rw p at e))
      ]
