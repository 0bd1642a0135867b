-- ===== src/Series/Repo.antt =====
-- mios/series/repo.py: the `observations` table, written append-only and read as of an instant. The
-- table is the list of its rows in the order of insertion; a statement of SQL is a function on it.
pub mod AsOf
pub mod Writes
use invest.Base.{
  ℕ, ◌+◌, ◌-◌, ◌≡◌, Bool, true, false, not, ◌&&◌, Option, none, some, String, List, [], ◌∷◌, ◌++◌,
  map, ltb, leb, ◌==◌, str_eq, if◌then◌else◌, any, filter, length, last?, sort_by, group, members,
  total_length,
}
use invest.Common.Decimal.{Decimal}
use invest.Common.Dates.{Date}
use invest.Series.Planner.{Vintage, PlannedWrite, plan_writes}

-- What the code reads of a `SeriesSpec` of config/series.yaml.
pub record SeriesSpec : Type 0 where
  pub series_id : String
  pub source_id : String
  pub provider_code : String
  pub parser : String
  pub category : String
  pub revisable : Bool

-- A row of `observations`, with the fields of `Observation` and its provenance.
pub record Observation : Type 0 where
  pub series_id : String
  pub observation_date : Date
  pub vintage_at : ℕ
  pub value : Option Decimal
  pub revision_n : ℕ
  pub source_id : String
  pub raw_item_id : String

pub record WriteResult : Type 0 where
  pub written : ℕ
  pub skipped : ℕ
  pub revisions : ℕ

unfoldable pub add_results : WriteResult → WriteResult → WriteResult
add_results a b = record {
  written = a.written + b.written;
  skipped = a.skipped + b.skipped;
  revisions = a.revisions + b.revisions;
}

abbrev pub Table : Type 0
Table = List Observation

abbrev pub date_of : Observation → ℕ
date_of r = r.observation_date

abbrev pub vintage_at_of : Observation → ℕ
vintage_at_of r = r.vintage_at

-- The query of `_vintages`: the rows of a series, ORDER BY observation_date, vintage_at.
unfoldable pub series_rows : Table → String → List Observation
series_rows table series_id =
    sort_by date_of (sort_by vintage_at_of (filter (λ r. str_eq r.series_id series_id) table))

abbrev pub dated_vintage : Observation → ℕ × Vintage
dated_vintage r = (r.observation_date, (r.vintage_at, r.value))

unfoldable pub vintages : Table → String → List (ℕ × List Vintage)
unfolding series_rows
vintages table series_id = group (map dated_vintage (series_rows table series_id))

-- A parsed point: its period, its value and the vintage that its feed reports, if any.
abbrev pub Point : Type 0
Point = Date × Option Decimal × Option ℕ

abbrev pub vintage_or : Option ℕ → ℕ → ℕ
vintage_or none default_vintage = default_vintage
vintage_or (some vintage_at) default_vintage = vintage_at

abbrev pub dated_point : ℕ → Point → ℕ × Vintage
dated_point default_vintage (observation_date, value, vintage_at) =
    (observation_date, (vintage_or vintage_at default_vintage, value))

abbrev pub row_of : SeriesSpec → String → Date → PlannedWrite → Observation
row_of spec raw_item_id observation_date planned = record {
  series_id = spec.series_id;
  observation_date = observation_date;
  vintage_at = planned.vintage_at;
  value = planned.value;
  revision_n = planned.revision_n;
  source_id = spec.source_id;
  raw_item_id = raw_item_id;
}

abbrev pub dated_write : Date → PlannedWrite → ℕ × PlannedWrite
dated_write observation_date w = (observation_date, w)

-- The loop of `write_points` over the periods: the writes planned for each, beside its period.
unfoldable pub plan_periods :
    List (ℕ × List Vintage) → List (ℕ × List Vintage) → List (ℕ × PlannedWrite)
plan_periods existing [] = []
plan_periods existing ((observation_date, candidates) ∷ incoming) =
    map (dated_write observation_date) (plan_writes (members observation_date existing) candidates)
    ++ plan_periods existing incoming

unfoldable pub count_revisions : List (ℕ × PlannedWrite) → ℕ
count_revisions [] = 0
count_revisions ((_, w) ∷ planned) = (if w.is_revision then 1 else 0) + count_revisions planned

-- The primary key of `observations`.
abbrev pub same_key : Observation → Observation → Bool
same_key a b =
    str_eq a.series_id b.series_id
    && (a.observation_date == b.observation_date)
    && (a.vintage_at == b.vintage_at)

-- INSERT ... ON CONFLICT (series_id, observation_date, vintage_at) DO NOTHING
unfoldable pub insert_row : Table → Observation → Table
insert_row table row = if any (λ r. same_key r row) table then table else table ++ row ∷ []

unfoldable pub insert_rows : Table → List Observation → Table
unfolding insert_row
insert_rows table [] = table
insert_rows table (row ∷ rows) = insert_rows (insert_row table row) rows

unfoldable pub planned_rows : Table → SeriesSpec → List Point → ℕ → List (ℕ × PlannedWrite)
unfolding plan_periods vintages
planned_rows table spec points default_vintage =
    plan_periods (vintages table spec.series_id) (group (map (dated_point default_vintage) points))

unfoldable pub write_points : Table → SeriesSpec → List Point → String → ℕ → Table × WriteResult
unfolding planned_rows insert_rows count_revisions
write_points table spec points raw_item_id default_vintage =
    let planned = planned_rows table spec points default_vintage in
    let seen = total_length (group (map (dated_point default_vintage) points)) in
    let rows = map (λ (p : ℕ × PlannedWrite). row_of spec raw_item_id p.0 p.1) planned in
    (
      insert_rows table rows,
      record {
        written = length rows;
        skipped = seen - length rows;
        revisions = count_revisions planned;
      },
    )

-- `write_vintage`: every point shares a vintage.
unfoldable pub write_vintage :
    Table → SeriesSpec → List (Date × Option Decimal) → ℕ → String → Table × WriteResult
unfolding write_points
write_vintage table spec points vintage_at raw_item_id =
    write_points table spec (map (λ (p : Date × Option Decimal). (p.0, p.1, none)) points)
      raw_item_id vintage_at

-- ORDER BY vintage_at DESC
unfoldable pub insert_newest : Observation → List Observation → List Observation
insert_newest r [] = r ∷ []
insert_newest r (s ∷ rows) =
    if leb s.vintage_at r.vintage_at then r ∷ s ∷ rows else s ∷ insert_newest r rows

unfoldable pub newest_first : List Observation → List Observation
unfolding insert_newest
newest_first [] = []
newest_first (r ∷ rows) = insert_newest r (newest_first rows)

abbrev pub is_period : Option ℕ → ℕ → Bool
is_period none d = false
is_period (some p) d = p == d

-- SELECT DISTINCT ON (observation_date): the first row of each run of one period.
unfoldable pub distinct_from : Option ℕ → List Observation → List Observation
distinct_from previous [] = []
distinct_from previous (r ∷ rows) =
    let rest = distinct_from (some r.observation_date) rows in
    if is_period previous r.observation_date then rest else r ∷ rest

abbrev pub at_least : Option Date → Date → Bool
at_least none d = true
at_least (some start) d = leb start d

abbrev pub at_most : Option Date → Date → Bool
at_most none d = true
at_most (some end) d = leb d end

-- `AND observation_date >= start AND observation_date <= end`, each if it is given.
abbrev pub in_range : Option Date → Option Date → Date → Bool
in_range start end d = at_least start d && at_most end d

abbrev pub is_known : String → ℕ → Option Date → Option Date → Observation → Bool
is_known series_id as_of start end r =
    str_eq r.series_id series_id
    && (leb r.vintage_at as_of && in_range start end r.observation_date)

unfoldable pub known_rows : Table → String → ℕ → Option Date → Option Date → List Observation
known_rows table series_id as_of start end = filter (is_known series_id as_of start end) table

unfoldable pub as_of : Table → String → ℕ → Option Date → Option Date → List Observation
unfolding known_rows newest_first distinct_from
as_of table series_id instant start end =
    distinct_from none
      (sort_by date_of (newest_first (known_rows table series_id instant start end)))

unfoldable pub latest_as_of : Table → String → ℕ → Option Observation
unfolding as_of
latest_as_of table series_id instant = last? (as_of table series_id instant none none)

-- Every vintage of one period, oldest first.
unfoldable pub revisions : Table → String → Date → List Observation
revisions table series_id observation_date =
    sort_by vintage_at_of
      (filter (λ r. str_eq r.series_id series_id && (r.observation_date == observation_date)) table)
