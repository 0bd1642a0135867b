-- ===== src/Series/Calendar/Ingest.antt =====
-- The loop of `CalendarIngestor.run` over the releases of a payload.
use invest.Base.{
  ℕ, suc, ◌+◌, ◌≡◌, refl, Bool, true, Option, none, some, String, List, [], ◌∷◌, All, All-imp,
  arith, length, length-map, map, any, ap, ◌∙◌, not, filter, is_some, inl, inr, Bool-cases, str_eq,
  ◌==◌, ◌&&◌,
}
use invest.Common.Dates.{Date}
use invest.Common.Errors.{Result, ok, err}
use invest.Series.Calendar.{
  ScheduledRelease, WatchedRelease, CalendarRow, CalendarReport, has_entry, upsert, entries,
  coalesce, Precision, row_from, series_or_none, scheduled_at, after_upsert, write_rows,
  count_release, after_rows, ingest,
}
use invest.Series.Calendar.Entries.{IsUpserted, UpsertEnds, upsert-UpsertEnds}

-- Every entry of the first table is in the second.
abbrev pub Keeps : List CalendarRow → List CalendarRow → Type 0
Keeps a b = (x : CalendarRow) → has_entry a x ≡ true → has_entry b x ≡ true

abbrev pub Present : List CalendarRow → CalendarRow → Type 0
Present table row = has_entry table row ≡ true

abbrev Writes : List CalendarRow → List CalendarRow → Result (Unit {0}) × List CalendarRow → Type 0
Writes rows table (err e, table') = Keeps table table'
Writes rows table (ok _, table') = Keeps table table' × All (Present table') rows

Writes-cons :
    (row : CalendarRow) (rows table mid : List CalendarRow)
    (o : Result (Unit {0}) × List CalendarRow)
    → IsUpserted table row mid
    → Writes rows mid o
    → Writes (row ∷ rows) table o
Writes-cons row rows table mid (err e, table') u k = λ x h. k x (u.kept x h)
Writes-cons row rows table mid (ok _, table') u (k, all) =
    ((λ x h. k x (u.kept x h)), (k row u.present, all))

module _ (midnight : Date → ℕ) (calendar_id_of : Date → String → Option String → String)
    (source_id source_url : String) where
  Writes-after_upsert :
      (row : CalendarRow) (rows table : List CalendarRow) (o : Result (Bool × List CalendarRow))
      → UpsertEnds table row o
      → ((mid : List CalendarRow)
          → Writes rows mid (write_rows midnight calendar_id_of source_id source_url rows mid))
      → Writes (row ∷ rows) table (
          after_upsert midnight calendar_id_of source_id source_url o table
            (write_rows midnight calendar_id_of source_id source_url rows))
  Writes-after_upsert row rows table (err e) u k = λ x h. h
  Writes-after_upsert row rows table (ok (inserted, mid)) u k =
      Writes-cons row rows table mid _ u (k mid)

  write_rows-Writes :
      (rows table : List CalendarRow)
      → Writes rows table (write_rows midnight calendar_id_of source_id source_url rows table)
  unfolding write_rows
  write_rows-Writes [] table = ((λ x h. h), tt)
  write_rows-Writes (row ∷ rows) table =
      Writes-after_upsert row rows table (upsert table row) (upsert-UpsertEnds table row)
        (write_rows-Writes rows)

  module _ (watched : String → Option WatchedRelease) where
    abbrev rows_of : ScheduledRelease → List CalendarRow
    rows_of release =
        entries midnight calendar_id_of source_id source_url release (watched release.release_name)

    -- The calendar has a row of the source for the release at the instant, for the series or for none.
    abbrev pub IsListed : List CalendarRow → String → ℕ → Option String → Type 0
    IsListed table provider_release_id instant series =
        any
          (λ (r : CalendarRow).
            str_eq source_id r.source_id
            && (str_eq provider_release_id r.provider_release_id
                && ((instant == r.scheduled_at)
                    && str_eq (coalesce series) (coalesce r.series_id))))
          table
        ≡ true

    abbrev pub AreListed : List CalendarRow → String → ℕ → List String → Type 0
    AreListed table provider_release_id instant [] = IsListed table provider_release_id instant none
    AreListed table provider_release_id instant (s ∷ series) =
        IsListed table provider_release_id instant (some s)
        × All (λ t. IsListed table provider_release_id instant (some t)) series

    -- A release that is not watched is listed once, at the start of its day; a watched one at its clock,
    -- for each of its series, or once if it has none.
    abbrev pub IsReleased : List CalendarRow → ScheduledRelease → Option WatchedRelease → Type 0
    IsReleased table release none =
        IsListed table release.provider_release_id (midnight release.release_date) none
    IsReleased table release (some w) =
        AreListed table release.provider_release_id (w.clock release.release_date) w.series

    abbrev at_least_one : List String → ℕ
    at_least_one [] = 1
    at_least_one (s ∷ series) = suc (length series)

    abbrev pub rows_for : Option WatchedRelease → ℕ
    rows_for none = 1
    rows_for (some w) = at_least_one w.series

    abbrev pub is_watched : ScheduledRelease → Bool
    is_watched release = is_some (watched release.release_name)

    abbrev pub count_rows : List ScheduledRelease → ℕ
    count_rows [] = 0
    count_rows (release ∷ releases) = rows_for (watched release.release_name) + count_rows releases

    abbrev pub count_if : (ScheduledRelease → Bool) → List ScheduledRelease → ℕ
    count_if p releases = length (filter p releases)

    -- What a run does: the entries that were there stay, and if it ends well, each release is listed,
    -- and the report has counted the releases, watched and not, and the rows.
    abbrev pub Ingests :
        List ScheduledRelease
        → CalendarReport
        → List CalendarRow
        → Result CalendarReport × List CalendarRow
        → Type 0
    Ingests releases report table (err e, table') = Keeps table table'
    Ingests releases report table (ok report', table') =
        Keeps table table'
        × All (λ release. IsReleased table' release (watched release.release_name)) releases
        × (report'.matched ≡ report.matched + count_if is_watched releases)
        × (report'.unmatched ≡ report.unmatched + count_if (λ r. not (is_watched r)) releases)
        × (report'.scheduled ≡ report.scheduled + count_rows releases)

    AreListed-Present :
        (table : List CalendarRow) (release : ScheduledRelease) (event_type country : String)
        (importance : ℕ) (at : ℕ × Precision) (series : List String)
        → All (Present table) (
            map
              (row_from midnight calendar_id_of source_id source_url release event_type country
                importance at)
              (series_or_none midnight calendar_id_of source_id source_url series))
        → AreListed table release.provider_release_id at.0 series
    AreListed-Present table release event_type country importance at [] h = h.0
    AreListed-Present table release event_type country importance at (s ∷ series) h =
        (h.0, each series h.1)
      where
        each :
            (ss : List String)
            → All (Present table) (
                map
                  (row_from midnight calendar_id_of source_id source_url release event_type country
                    importance at)
                  (map some ss))
            → All (λ t. IsListed table release.provider_release_id at.0 (some t)) ss
        each [] k = tt
        each (t ∷ ss) k = (k.0, each ss k.1)

    IsReleased-Present :
        (table : List CalendarRow) (release : ScheduledRelease) (spec : Option WatchedRelease)
        → All (Present table) (entries midnight calendar_id_of source_id source_url release spec)
        → IsReleased table release spec
    unfolding entries scheduled_at
    IsReleased-Present table release none h = h.0
    IsReleased-Present table release (some w) h =
        AreListed-Present table release w.event_type w.country w.importance _ w.series h

    length-entries :
        (release : ScheduledRelease) (spec : Option WatchedRelease)
        → length (entries midnight calendar_id_of source_id source_url release spec) ≡ rows_for spec
    unfolding entries
    length-entries release none = refl
    length-entries release (some w) = length-map_series w.series
      where
        length-map_series :
            (series : List String)
            → length (
                map
                  (row_from midnight calendar_id_of source_id source_url release w.event_type
                    w.country w.importance
                    (scheduled_at midnight calendar_id_of release (some w)))
                  (series_or_none midnight calendar_id_of source_id source_url series))
              ≡ at_least_one series
        length-map_series [] = refl
        length-map_series (s ∷ series) =
            ap suc (length-map _ (map some series) ∙ length-map some series)

    -- A report counts one more release.
    record Counts (release : ScheduledRelease) (report next : CalendarReport) : Type 0 where
      matched : next.matched ≡ report.matched + count_if is_watched (release ∷ [])
      unmatched :
          next.unmatched ≡ report.unmatched + count_if (λ r. not (is_watched r)) (release ∷ [])
      scheduled : next.scheduled ≡ report.scheduled + rows_for (watched release.release_name)

    counted :
        (release : ScheduledRelease) (spec : Option WatchedRelease) (report : CalendarReport)
        → watched release.release_name ≡ spec
        → Counts release report (
            count_release midnight calendar_id_of source_id source_url release spec
              (length (entries midnight calendar_id_of source_id source_url release spec))
              report)
    counted release none report e = record {
      matched = rw e (omega arith);
      unmatched = rw e (omega arith);
      scheduled = rw e (ap (λ k. report.scheduled + k) (length-entries release none));
    }
    counted release (some w) report e = record {
      matched = rw e (omega arith);
      unmatched = rw e (omega arith);
      scheduled = rw e (ap (λ k. report.scheduled + k) (length-entries release (some w)));
    }

    length-filter_cons :
        (p : ScheduledRelease → Bool) (release : ScheduledRelease)
        (releases : List ScheduledRelease)
        → count_if p (release ∷ releases) ≡ count_if p (release ∷ []) + count_if p releases
    length-filter_cons p release releases = elim (Bool-cases (p release)) [
      | inl e ↦ rw e (omega arith)
      | inr e ↦ rw e (omega arith)
    ]

    Ingests-cons :
        (release : ScheduledRelease) (releases : List ScheduledRelease)
        (report next : CalendarReport) (table mid : List CalendarRow)
        (o : Result CalendarReport × List CalendarRow)
        → Keeps table mid
        → All (Present mid) (rows_of release)
        → Counts release report next
        → Ingests releases next mid o
        → Ingests (release ∷ releases) report table o
    Ingests-cons release releases report next table mid (err e, table') k a c i = λ x h. i x (k x h)
    Ingests-cons release releases report next table mid (ok report', table') k a c
          (k', all, m, u, r) =
        (
          (λ x h. k' x (k x h)),
          (
            IsReleased-Present table' release (watched release.release_name)
                (All-imp (rows_of release) (λ row h. k' row h) a),
            all,
          ),
          omega (arith, m, c.matched, length-filter_cons is_watched release releases),
          omega (
            arith,
            u,
            c.unmatched,
            length-filter_cons (λ r. not (is_watched r)) release releases,
          ),
          omega (arith, r, c.scheduled),
        )

    Ingests-after_rows :
        (release : ScheduledRelease) (releases : List ScheduledRelease)
        (report next : CalendarReport) (table : List CalendarRow)
        (o : Result (Unit {0}) × List CalendarRow)
        → Writes (rows_of release) table o
        → Counts release report next
        → ((mid : List CalendarRow)
            → Ingests releases next mid
                (ingest midnight calendar_id_of source_id source_url watched releases next mid))
        → Ingests (release ∷ releases) report table (
            after_rows midnight calendar_id_of source_id source_url o
              (ingest midnight calendar_id_of source_id source_url watched releases next))
    Ingests-after_rows release releases report next table (err e, mid) w c k = w
    Ingests-after_rows release releases report next table (ok _, mid) (kept, all) c k =
        Ingests-cons release releases report next table mid _ kept all c (k mid)

    -- A run over the releases of a payload keeps every entry of the calendar, also where a violated
    -- key ends it. If it ends well, each release is on the calendar: one that is not watched once, at
    -- the start of its day and without a series; a watched one at its clock on the day, once for each
    -- of its series, or once without a series if it has none. The report has counted the watched
    -- releases as matched, the others as unmatched, and each of those rows once.
    pub ingest-Ingests :
        (releases : List ScheduledRelease) (report : CalendarReport) (table : List CalendarRow)
        → Ingests releases report table
            (ingest midnight calendar_id_of source_id source_url watched releases report table)
    unfolding ingest
    ingest-Ingests [] report table = ((λ x h. h), tt, omega arith, omega arith, omega arith)
    ingest-Ingests (release ∷ releases) report table =
        let spec = watched release.release_name in
        let next =
          count_release midnight calendar_id_of source_id source_url release spec
            (length (rows_of release)) report in
        Ingests-after_rows release releases report next table _
          (write_rows-Writes (rows_of release) table) (counted release spec report refl)
          (ingest-Ingests releases next)
