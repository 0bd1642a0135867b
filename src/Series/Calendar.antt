-- ===== src/Series/Calendar.antt =====
-- mios/series/calendar.py: the schedule of releases, with `WatchedRelease` of mios/config/calendar.py
-- and the table `economic_calendar` with its two unique indexes.
pub mod Entries
pub mod Ingest
pub mod Unique
pub mod Reader
pub mod Window
use invest.Base.{
  ℕ, suc, ◌+◌, Bool, true, false, ◌&&◌, Option, none, some, String, List, [], ◌∷◌, ◌++◌, map, leb,
  ltb, ◌==◌, str_eq, if◌then◌else◌, any, filter, take, length,
}
use invest.Common.Dates.{Date}
use invest.Common.Errors.{Raised, crash, Result, ok, err}
use invest.Ingestion.RawStore.{RawItem}

-- `time_precision`
pub data Precision : Type 0 where
  date_only exact : Precision

pub record ScheduledRelease : Type 0 where
  pub provider_release_id : String
  pub release_name : String
  pub release_date : Date

-- A `WatchedRelease`; its clock gives the instant of its local time on a date.
pub record WatchedRelease : Type 0 where
  pub release_name : String
  pub country : String
  pub importance : ℕ
  pub clock : Date → ℕ
  pub event_type : String
  pub series : List String

pub record CalendarRow : Type 0 where
  pub calendar_id : String
  pub series_id : Option String
  pub event_type : String
  pub country : String
  pub title : String
  pub scheduled_at : ℕ
  pub importance : ℕ
  pub source_id : String
  pub source_url : String
  pub time_precision : Precision
  pub provider_release_id : String

pub record CalendarReport : Type 0 where
  pub raw_items : ℕ
  pub scheduled : ℕ
  pub matched : ℕ
  pub unmatched : ℕ
  pub failures : List String
  pub seen_names : List String

-- The releases of a payload, the message of a `CalendarParseError`, or another exception.
pub data ReleaseDates : Type 0 where
  release_dates : List ScheduledRelease → ReleaseDates
  calendar_error : String → ReleaseDates
  calendar_crash : ReleaseDates

-- `seen_names.add(...)`
abbrev pub add_name : String → List String → List String
add_name name names = if any (λ n. str_eq n name) names then names else name ∷ names

-- COALESCE(series_id, '')
abbrev pub coalesce : Option String → String
coalesce none = ""
coalesce (some s) = s

-- The unique index that the upsert names.
abbrev pub same_entry : CalendarRow → CalendarRow → Bool
same_entry a b =
    str_eq a.source_id b.source_id
    && (str_eq a.provider_release_id b.provider_release_id
        && ((a.scheduled_at == b.scheduled_at)
            && str_eq (coalesce a.series_id) (coalesce b.series_id)))

abbrev pub has_entry : List CalendarRow → CalendarRow → Bool
has_entry table row = any (same_entry row) table

-- The primary key.
abbrev pub has_id : List CalendarRow → CalendarRow → Bool
has_id table row = any (λ r. str_eq row.calendar_id r.calendar_id) table

-- DO UPDATE SET ...
unfoldable pub correct : CalendarRow → CalendarRow → CalendarRow
correct row r =
    if same_entry row r
    then record r {
      title = row.title;
      importance = row.importance;
      event_type = row.event_type;
      time_precision = row.time_precision;
    }
    else r

-- `upsert`: whether the row was inserted, and the table. A row that is not there by the named index
-- but whose primary key is taken violates that key.
unfoldable pub upsert : List CalendarRow → CalendarRow → Result (Bool × List CalendarRow)
unfolding correct
upsert table row =
    if has_entry table row
    then ok (false, map (correct row) table)
    else if has_id table row
    then err (crash "UniqueViolation")
    else ok (true, table ++ row ∷ [])

-- The start of a day in UTC, and the identifier made by `make_dated_id` and `slugify` of
-- mios/common/ids.py from the date, the release and the series.
module _ (midnight : Date → ℕ) (calendar_id_of : Date → String → Option String → String) where
  unfoldable pub scheduled_at : ScheduledRelease → Option WatchedRelease → ℕ × Precision
  scheduled_at release none = (midnight release.release_date, date_only)
  scheduled_at release (some watched) = (watched.clock release.release_date, exact)

  module _ (source_id source_url : String) where
    -- The row of `_write`.
    abbrev pub row_from :
        ScheduledRelease → String → String → ℕ → ℕ × Precision → Option String → CalendarRow
    row_from release event_type country importance (instant, precision) series_id = record {
      calendar_id = calendar_id_of release.release_date release.provider_release_id series_id;
      series_id = series_id;
      event_type = event_type;
      country = country;
      title = release.release_name;
      scheduled_at = instant;
      importance = importance;
      source_id = source_id;
      source_url = source_url;
      time_precision = precision;
      provider_release_id = release.provider_release_id;
    }

    -- `spec.series or [None]`
    abbrev pub series_or_none : List String → List (Option String)
    series_or_none [] = none ∷ []
    series_or_none (s ∷ series) = map some (s ∷ series)

    -- The rows that are written for a release.
    unfoldable pub entries : ScheduledRelease → Option WatchedRelease → List CalendarRow
    unfolding scheduled_at
    entries release none =
        row_from release "release.other.uncategorised" "US" 1 (scheduled_at release none) none ∷ []
    entries release (some w) =
        map (row_from release w.event_type w.country w.importance (scheduled_at release (some w)))
          (series_or_none w.series)

    abbrev pub after_upsert :
        Result (Bool × List CalendarRow)
        → List CalendarRow
        → (List CalendarRow → Result (Unit {0}) × List CalendarRow)
        → Result (Unit {0}) × List CalendarRow
    after_upsert (err e) table rest = (err e, table)
    after_upsert (ok (inserted, table')) table rest = rest table'

    unfoldable pub write_rows :
        List CalendarRow → List CalendarRow → Result (Unit {0}) × List CalendarRow
    write_rows [] table = (ok tt, table)
    write_rows (row ∷ rows) table = after_upsert (upsert table row) table (write_rows rows)

    abbrev pub count_release :
        ScheduledRelease → Option WatchedRelease → ℕ → CalendarReport → CalendarReport
    count_release release none written report = record report {
      scheduled = report.scheduled + written;
      unmatched = suc report.unmatched;
      seen_names = add_name release.release_name report.seen_names;
    }
    count_release release (some w) written report = record report {
      scheduled = report.scheduled + written;
      matched = suc report.matched;
      seen_names = add_name release.release_name report.seen_names;
    }

    abbrev pub after_rows :
        Result (Unit {0}) × List CalendarRow
        → (List CalendarRow → Result CalendarReport × List CalendarRow)
        → Result CalendarReport × List CalendarRow
    after_rows (err e, table) rest = (err e, table)
    after_rows (ok _, table) rest = rest table

    -- `by_name()`
    module _ (watched : String → Option WatchedRelease) where
      unfoldable pub ingest :
          List ScheduledRelease
          → CalendarReport
          → List CalendarRow
          → Result CalendarReport × List CalendarRow
      unfolding entries write_rows
      ingest [] report table = (ok report, table)
      ingest (release ∷ releases) report table =
          let spec = watched release.release_name in
          let rows = entries release spec in
          after_rows (write_rows rows table)
            (ingest releases (count_release release spec (length rows) report))

      abbrev pub no_report : CalendarReport
      no_report = record {
        raw_items = 0;
        scheduled = 0;
        matched = 0;
        unmatched = 0;
        failures = [];
        seen_names = [];
      }

      abbrev pub ingest_dates :
          ReleaseDates → List CalendarRow → Result CalendarReport × List CalendarRow
      ingest_dates (calendar_error message) table =
          (ok (record no_report { raw_items = 1; failures = message ∷ [] }), table)
      ingest_dates calendar_crash table = (err (crash "json.loads"), table)
      ingest_dates (release_dates releases) table =
          ingest releases (record no_report { raw_items = 1 }) table

      -- `CalendarIngestor.run`, with the latest raw item of the source and the reader of its payload.
      unfoldable pub run :
          (String → ReleaseDates)
          → Option RawItem
          → List CalendarRow
          → Result CalendarReport × List CalendarRow
      unfolding ingest
      run read none table =
          (ok (record no_report { failures = "no payload collected yet" ∷ [] }), table)
      run read (some item) table = ingest_dates (read item.payload_text) table
