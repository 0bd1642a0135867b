-- ===== src/Series/Calendar/Window.antt =====
-- The reads of `CalendarRepo` of mios/series/calendar.py: a window of the schedule, what comes next, and
-- how much is known.
use invest.Base.{
  ℕ, suc, ◌-◌, Bool, true, false, ◌&&◌, List, [], ◌∷◌, take, leb, ltb, filter, length,
  if◌then◌else◌, sort_by, sort_by_text, sort_by-IsSorted, IsSorted, str_eq, any,
}
use invest.Series.Calendar.{CalendarRow, Precision, exact, date_only}

abbrev pub scheduled_of : CalendarRow → ℕ
scheduled_of r = r.scheduled_at

-- An importance is from 1 to 5, and the highest comes first.
abbrev pub by_importance : CalendarRow → ℕ
by_importance r = 5 - r.importance

abbrev pub in_window : ℕ → ℕ → CalendarRow → Bool
in_window start end r = leb start r.scheduled_at && ltb r.scheduled_at end

-- `between`
unfoldable pub between : ℕ → ℕ → List CalendarRow → List CalendarRow
between start end table = sort_by scheduled_of (
    sort_by by_importance
      (sort_by_text (λ (r : CalendarRow). r.title) (filter (in_window start end) table)))

-- `upcoming`
unfoldable pub upcoming : ℕ → ℕ → List CalendarRow → List CalendarRow
upcoming after limit table =
    take limit
      (sort_by scheduled_of (sort_by by_importance (filter (λ r. leb after r.scheduled_at) table)))

abbrev pub is_exact : Precision → Bool
is_exact exact = true
is_exact date_only = false

-- count(DISTINCT provider_release_id)
unfoldable pub count_releases : List CalendarRow → ℕ
count_releases [] = 0
count_releases (r ∷ rows) =
    let rest = count_releases rows in
    if any (λ (q : CalendarRow). str_eq q.provider_release_id r.provider_release_id) rows
    then rest
    else suc rest

pub record Coverage : Type 0 where
  pub entries : ℕ
  pub exact_entries : ℕ
  pub releases : ℕ

-- `coverage`
unfoldable pub coverage : List CalendarRow → Coverage
unfolding count_releases
coverage table = record {
  entries = length table;
  exact_entries = length (filter (λ r. is_exact r.time_precision) table);
  releases = count_releases table;
}

-- What `between` gives is in the order of time and within the window.
pub between-IsSorted :
    (start end : ℕ) (table : List CalendarRow) → IsSorted scheduled_of (between start end table)
unfolding between
between-IsSorted start end table = sort_by-IsSorted scheduled_of _
