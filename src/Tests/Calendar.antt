-- ===== src/Tests/Calendar.antt =====
-- Runs of mios/series/calendar.py.
use invest.Base.{
  ℕ, ◌≡◌, refl, true, false, Option, none, String, List, [], ◌∷◌, arith, ◌==◌, if◌then◌else◌,
}
use invest.Common.Dates.{Date}
use invest.Common.Errors.{err, crash}
use invest.Series.Calendar.{
  ScheduledRelease, WatchedRelease, CalendarRow, date_only, same_entry, has_entry, upsert, ingest,
  no_report,
}
use invest.Series.Calendar.Entries.{moved_release_stays}
use invest.Series.Calendar.Ingest.{Ingests, ingest-Ingests}
use invest.Series.Calendar.Unique.{EndsUnique, upsert-IsUnique}

abbrev midnight : Date → ℕ
midnight d = d

abbrev calendar_id_of : Date → String → Option String → String
calendar_id_of d release_id series_id = if d == 20260812 then "evt_12" else "evt_13"

abbrev cpi_on : Date → ScheduledRelease
cpi_on d = record {
  provider_release_id = "10";
  release_name = "Consumer Price Index";
  release_date = d;
}

abbrev unwatched : String → Option WatchedRelease
unwatched name = none

abbrev row_on : String → ℕ → CalendarRow
row_on id instant = record {
  calendar_id = id;
  series_id = none;
  event_type = "release.other.uncategorised";
  country = "US";
  title = "Consumer Price Index";
  scheduled_at = instant;
  importance = 1;
  source_id = "src_fred_calendar";
  source_url = "";
  time_precision = date_only;
  provider_release_id = "10";
}

abbrev planned : CalendarRow
planned = row_on "evt_12" 20260812

abbrev moved : CalendarRow
moved = row_on "evt_13" 20260813

moved_release_stays_run :
    (has_entry (planned ∷ moved ∷ []) planned ≡ true)
    × (has_entry (planned ∷ moved ∷ []) moved ≡ true)
    × (same_entry planned moved ≡ false)
unfolding upsert
moved_release_stays_run =
    moved_release_stays [] (planned ∷ []) (planned ∷ moved ∷ []) planned moved true true
      (omega arith) refl refl

-- A clock that is configured after the day was written without one: the identifier is taken.
clock_change_violates_key :
    upsert (planned ∷ []) (row_on "evt_12" 20260899) ≡ err (crash "UniqueViolation")
unfolding upsert
clock_change_violates_key = refl

upsert-IsUnique_example : EndsUnique (planned ∷ []) moved (upsert (planned ∷ []) moved)
upsert-IsUnique_example = upsert-IsUnique (planned ∷ []) moved (refl, refl, tt)

abbrev payload : List ScheduledRelease
payload = cpi_on 20260812 ∷ []

ingest-Ingests_example :
    Ingests midnight calendar_id_of "src_fred_calendar" "" unwatched payload
      (no_report midnight calendar_id_of "src_fred_calendar" "" unwatched)
      []
      (ingest midnight calendar_id_of "src_fred_calendar" "" unwatched payload
        (no_report midnight calendar_id_of "src_fred_calendar" "" unwatched)
        [])
ingest-Ingests_example =
    ingest-Ingests midnight calendar_id_of "src_fred_calendar" "" unwatched payload
      (no_report midnight calendar_id_of "src_fred_calendar" "" unwatched) []
