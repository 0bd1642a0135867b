-- ===== src/Series/Repo/AsOf.antt =====
-- `ObservationRepo.as_of` by period: mios/series/repo.py.
use mathlib.Core.Option.{some-injective, none-ne-some}
use invest.Base.{
  ℕ, ◌≤◌, ◌<◌, ◌≡◌, refl, ap, ◌∙◌, subst, inl, inr, Option, none, some, String, List, [], ◌∷◌, ◌++◌,
  leb, ◌==◌, if◌then◌else◌, filter, sort_by, insert_by, All, All-imp, filter-append, filter_none,
  Bool-cases, arith, IsSorted, IsAscending, sort_by-IsSorted, append-nil, leb→le, leb→lt,
}
use invest.Series.Repo.{
  Observation, Table, date_of, insert_newest, newest_first, is_period, distinct_from, known_rows,
  is_known, as_of,
}

-- The first row of a period.
pub find_period : ℕ → List Observation → Option Observation
find_period d [] = none
find_period d (r ∷ rows) =
    let rest = find_period d rows in if r.observation_date == d then some r else rest

abbrev newer : Observation → Option Observation → Option Observation
newer r none = some r
newer r (some s) = if leb s.vintage_at r.vintage_at then some r else some s

-- The row of the greatest vintage.
pub newest : List Observation → Option Observation
newest [] = none
newest (r ∷ rows) = newer r (newest rows)

abbrev pub of_period : ℕ → List Observation → List Observation
of_period d = filter (λ r. r.observation_date == d)

find_period-insert_by :
    (d : ℕ) (r : Observation) (rows : List Observation)
    → find_period d (insert_by date_of r rows) ≡ find_period d (r ∷ rows)
unfolding find_period insert_by
find_period-insert_by d r [] = refl
find_period-insert_by d r (s ∷ rows) = ground (arith, find_period-insert_by d r rows)

find_period-sort_by :
    (d : ℕ) (rows : List Observation) → find_period d (sort_by date_of rows) ≡ find_period d rows
unfolding sort_by find_period
find_period-sort_by d [] = refl
find_period-sort_by d (r ∷ rows) =
    ground (arith, find_period-insert_by d r (sort_by date_of rows), find_period-sort_by d rows)

find_period-none :
    (d : ℕ) (rows : List Observation)
    → All (λ r. d < r.observation_date) rows
    → find_period d rows ≡ none
unfolding find_period
find_period-none d [] h = refl
find_period-none d (r ∷ rows) h = ground (arith, find_period-none d rows h.1)

abbrev IsAfter : Option ℕ → List Observation → Type 0
IsAfter none rows = Unit
IsAfter (some p) rows = All (λ r. p ≤ r.observation_date) rows

-- On rows sorted by period, DISTINCT ON keeps the first row of each.
find_period-distinct_from :
    (d : ℕ) (previous : Option ℕ) (rows : List Observation)
    → IsSorted date_of rows
    → IsAfter previous rows
    → find_period d (distinct_from previous rows)
      ≡ (if is_period previous d then none else find_period d rows)
unfolding find_period distinct_from
find_period-distinct_from d none [] s a = refl
find_period-distinct_from d (some p) [] s a = ground arith
find_period-distinct_from d none (r ∷ rows) s a =
    ground (arith, find_period-distinct_from d (some r.observation_date) rows s.1 s.0)
find_period-distinct_from d (some p) (r ∷ rows) s a = ground (
  arith,
  find_period-distinct_from d (some r.observation_date) rows s.1 s.0,
  λ (h : d < r.observation_date). find_period-none d rows (All-imp rows (λ t le. omega arith) s.0),
)

All-insert_newest {κ} :
    (P : Observation → Type κ) (r : Observation) (rows : List Observation)
    → P r
    → All P rows
    → All P (insert_newest r rows)
unfolding insert_newest
All-insert_newest P r [] p h = (p, tt)
All-insert_newest P r (s ∷ rows) p h = elim (Bool-cases (leb s.vintage_at r.vintage_at)) [
  | inl e ↦ rw e (p, h)
  | inr e ↦ rw e (h.0, All-insert_newest P r rows p h.1)
]

abbrev IsNewestFirst : List Observation → Type 0
IsNewestFirst [] = Unit
IsNewestFirst (r ∷ rows) = All (λ s. s.vintage_at ≤ r.vintage_at) rows × IsNewestFirst rows

insert_newest-IsNewestFirst :
    (r : Observation) (rows : List Observation)
    → IsNewestFirst rows
    → IsNewestFirst (insert_newest r rows)
unfolding insert_newest
insert_newest-IsNewestFirst r [] h = (tt, tt)
insert_newest-IsNewestFirst r (s ∷ rows) h = elim (Bool-cases (leb s.vintage_at r.vintage_at)) [
  | inl e ↦ rw e (
    (leb→le _ _ e, All-imp rows (λ t le. omega (arith, leb→le s.vintage_at r.vintage_at e)) h.0),
    h,
  )
  | inr e ↦ rw e (
    All-insert_newest (λ t. t.vintage_at ≤ s.vintage_at) r rows
        (omega (arith, leb→lt s.vintage_at r.vintage_at e)) h.0,
    insert_newest-IsNewestFirst r rows h.1,
  )
]

newest_first-IsNewestFirst : (rows : List Observation) → IsNewestFirst (newest_first rows)
unfolding newest_first
newest_first-IsNewestFirst [] = tt
newest_first-IsNewestFirst (r ∷ rows) =
    insert_newest-IsNewestFirst r (newest_first rows) (newest_first-IsNewestFirst rows)

All-find_period {κ} :
    (P : Observation → Type κ) (d : ℕ) (rows : List Observation) {r : Observation}
    → All P rows
    → find_period d rows ≡ some r
    → P r
unfolding find_period
All-find_period P d [] h e = absurd (none-ne-some _ e)
All-find_period P d (s ∷ rows) h e = elim (Bool-cases (s.observation_date == d)) [
  | inl t ↦ subst P (some-injective _ _ (rw t at e)) h.0
  | inr t ↦ All-find_period P d rows h.1 (rw t at e)
]

abbrev find_newer : ℕ → Observation → Option Observation → Option Observation
find_newer d r found = if r.observation_date == d then newer r found else found

newer_head :
    (r s : Observation) (d : ℕ) (o : Option Observation)
    → s.vintage_at ≤ r.vintage_at
    → ((t : Observation) → o ≡ some t → t.vintage_at ≤ s.vintage_at)
    → (if r.observation_date == d then some r else (if s.observation_date == d then some s else o))
      ≡ find_newer d r (if s.observation_date == d then some s else o)
newer_head r s d none h k = ground arith
newer_head r s d (some t) h k = ground (arith, k t refl)

newer_below :
    (r s : Observation) (d : ℕ) (o : Option Observation)
    → r.vintage_at < s.vintage_at
    → (if s.observation_date == d then some s else find_newer d r o)
      ≡ find_newer d r (if s.observation_date == d then some s else o)
newer_below r s d none h = ground arith
newer_below r s d (some t) h = ground arith

find_period-insert_newest :
    (d : ℕ) (r : Observation) (rows : List Observation)
    → IsNewestFirst rows
    → find_period d (insert_newest r rows) ≡ find_newer d r (find_period d rows)
unfolding find_period insert_newest
find_period-insert_newest d r [] h = refl
find_period-insert_newest d r (s ∷ rows) h = elim (Bool-cases (leb s.vintage_at r.vintage_at)) [
  | inl e ↦ rw e (
      newer_head r s d (find_period d rows) (leb→le _ _ e)
        (λ t q. All-find_period (λ u. u.vintage_at ≤ s.vintage_at) d rows h.0 q))
  | inr e ↦
      rw (e, find_period-insert_newest d r rows h.1)
        (newer_below r s d (find_period d rows) (leb→lt _ _ e))
]

find_period-newest_first :
    (d : ℕ) (rows : List Observation)
    → find_period d (newest_first rows) ≡ newest (of_period d rows)
unfolding newest_first newest
find_period-newest_first d [] = unfold find_period in refl
find_period-newest_first d (r ∷ rows) =
    find_period-insert_newest d r (newest_first rows) (newest_first-IsNewestFirst rows)
    ∙ ap (find_newer d r) (find_period-newest_first d rows)
    ∙ ground arith

abbrev IsBefore : Option ℕ → List Observation → Type 0
IsBefore none rows = Unit
IsBefore (some p) rows = All (λ r. p < r.observation_date) rows

-- On rows sorted by period, DISTINCT ON leaves strictly ascending periods.
distinct_from-IsAscending :
    (previous : Option ℕ) (rows : List Observation)
    → IsSorted date_of rows
    → IsAfter previous rows
    → IsBefore previous (distinct_from previous rows)
      × IsAscending date_of (distinct_from previous rows)
unfolding distinct_from
distinct_from-IsAscending none [] s a = (tt, tt)
distinct_from-IsAscending (some p) [] s a = (tt, tt)
distinct_from-IsAscending none (r ∷ rows) s a =
    (tt, distinct_from-IsAscending (some r.observation_date) rows s.1 s.0)
distinct_from-IsAscending (some p) (r ∷ rows) s a =
    let rest = distinct_from-IsAscending (some r.observation_date) rows s.1 s.0 in
    elim (Bool-cases (p == r.observation_date)) [
      | inl e ↦ rw e (All-imp _ (λ t lt. omega (arith, a.0)) rest.0, rest.1)
      | inr e ↦ rw e ((ground (arith, a.0), All-imp _ (λ t lt. omega (arith, a.0)) rest.0), rest)
    ]

-- A read as of an instant has at most one row of a period, in ascending order of the periods: for
-- each period the row of the greatest vintage among the rows of the series that are in the range of
-- periods and not after the instant, and no row for a period without any.
pub find_period-as_of :
    (table : Table) (series_id : String) (instant : ℕ) (start end : Option ℕ)
    → IsAscending date_of (as_of table series_id instant start end)
      × ((d : ℕ)
          → find_period d (as_of table series_id instant start end)
            ≡ newest (of_period d (known_rows table series_id instant start end)))
unfolding as_of
find_period-as_of table series_id instant start end = (
  (distinct_from-IsAscending none _ (sort_by-IsSorted date_of _) tt).1,
  λ d.
      find_period-distinct_from d none _ (sort_by-IsSorted date_of _) tt
      ∙ find_period-sort_by d _
      ∙ find_period-newest_first d (known_rows table series_id instant start end),
)

-- Rows whose vintage is after the instant change nothing that a read as of it returns.
pub as_of-append_later :
    (table later : Table) (series_id : String) (instant : ℕ) (start end : Option ℕ)
    → All (λ r. instant < r.vintage_at) later
    → as_of (table ++ later) series_id instant start end ≡ as_of table series_id instant start end
unfolding as_of known_rows
as_of-append_later table later series_id instant start end h = rw (
  filter-append (is_known series_id instant start end) table later,
  filter_none (is_known series_id instant start end) later (All-imp later (λ r lt. ground arith) h),
  append-nil (filter (is_known series_id instant start end) table),
)
