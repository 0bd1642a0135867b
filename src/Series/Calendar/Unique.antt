-- ===== src/Series/Calendar/Unique.antt =====
-- `CalendarRepo.upsert` and the two unique indexes of the calendar.
use invest.Base.{
  ◌≡◌, refl, ap, ◌∙◌, inl, inr, Bool, true, false, ◌⊎◌, ◌||◌, String, List, [], ◌∷◌, ◌++◌, map,
  str_eq, any, Bool-cases, arith, eq_iff,
}
use invest.Common.Errors.{Result, ok, err}
use invest.Series.Calendar.{CalendarRow, coalesce, same_entry, has_entry, has_id, correct, upsert}
use invest.Series.Calendar.Entries.{same_entry-correct_left, has_entry-correct, has_entry-append}

-- No two rows have one entry or one identifier.
abbrev pub IsUnique : List CalendarRow → Type 0
IsUnique [] = Unit
IsUnique (r ∷ table) = (has_entry table r ≡ false) × (has_id table r ≡ false) × IsUnique table

calendar_id-correct : (row r : CalendarRow) → (correct row r).calendar_id ≡ r.calendar_id
unfolding correct
calendar_id-correct row r = elim (Bool-cases (same_entry row r)) [
  | inl e ↦ rw e refl
  | inr e ↦ rw e refl
]

has_entry-correct_left :
    (row r : CalendarRow) (table : List CalendarRow)
    → has_entry table (correct row r) ≡ has_entry table r
has_entry-correct_left row r [] = refl
has_entry-correct_left row r (b ∷ table) =
    rw (same_entry-correct_left row r b, has_entry-correct_left row r table) refl

abbrev taken : String → List CalendarRow → Bool
taken id table = any (λ x. str_eq id x.calendar_id) table

taken-correct :
    (id : String) (row : CalendarRow) (table : List CalendarRow)
    → taken id (map (correct row) table) ≡ taken id table
taken-correct id row [] = refl
taken-correct id row (b ∷ table) = rw (calendar_id-correct row b, taken-correct id row table) refl

has_id-correct :
    (row r : CalendarRow) (table : List CalendarRow)
    → has_id (map (correct row) table) (correct row r) ≡ has_id table r
has_id-correct row r table =
    taken-correct (correct row r).calendar_id row table
    ∙ ap (λ id. taken id table) (calendar_id-correct row r)

map-correct-IsUnique :
    (row : CalendarRow) (table : List CalendarRow)
    → IsUnique table
    → IsUnique (map (correct row) table)
map-correct-IsUnique row [] u = tt
map-correct-IsUnique row (r ∷ table) (e, i, u) = (
  has_entry-correct row (correct row r) table ∙ has_entry-correct_left row r table ∙ e,
  has_id-correct row r table ∙ i,
  map-correct-IsUnique row table u,
)

same_entry_sym : (a b : CalendarRow) → same_entry a b ≡ same_entry b a
same_entry_sym a b = ground (
  arith,
  eq_iff a.source_id b.source_id,
  eq_iff b.source_id a.source_id,
  eq_iff a.provider_release_id b.provider_release_id,
  eq_iff b.provider_release_id a.provider_release_id,
  eq_iff (coalesce a.series_id) (coalesce b.series_id),
  eq_iff (coalesce b.series_id) (coalesce a.series_id),
)

has_id-append :
    (table : List CalendarRow) (row a : CalendarRow)
    → has_id (table ++ row ∷ []) a ≡ (has_id table a || str_eq a.calendar_id row.calendar_id)
has_id-append [] row a = ground arith
has_id-append (r ∷ table) row a = ground (arith, has_id-append table row a)

append-IsUnique :
    (row : CalendarRow) (table : List CalendarRow)
    → IsUnique table
    → has_entry table row ≡ false
    → has_id table row ≡ false
    → IsUnique (table ++ row ∷ [])
append-IsUnique row [] u e i = (refl, refl, tt)
append-IsUnique row (r ∷ table) (re, ri, u) e i = (
  ground (arith, has_entry-append table row r, re, e, same_entry_sym r row),
  ground (
    arith,
    has_id-append table row r,
    ri,
    i,
    eq_iff r.calendar_id row.calendar_id,
    eq_iff row.calendar_id r.calendar_id,
  ),
  append-IsUnique row table u (ground (arith, e)) (ground (arith, i)),
)

-- The rows before and after an update, in order: a row of the entry has the title, importance, event
-- type and precision of the new row and the rest as before; every other row is as before.
abbrev pub AreUpdated : CalendarRow → List CalendarRow → List CalendarRow → Type 0
AreUpdated row [] after = after ≡ []
AreUpdated row (r ∷ table) [] = ⊥
AreUpdated row (r ∷ table) (s ∷ after) =
    (((same_entry row r ≡ false) × (s ≡ r))
      ⊎ ((same_entry row r ≡ true)
          × (s ≡ record {
            calendar_id = r.calendar_id;
            series_id = r.series_id;
            event_type = row.event_type;
            country = r.country;
            title = row.title;
            scheduled_at = r.scheduled_at;
            importance = row.importance;
            source_id = r.source_id;
            source_url = r.source_url;
            time_precision = row.time_precision;
            provider_release_id = r.provider_release_id;
          })))
    × AreUpdated row table after

map-correct-AreUpdated :
    (row : CalendarRow) (table : List CalendarRow) → AreUpdated row table (map (correct row) table)
unfolding correct
map-correct-AreUpdated row [] = refl
map-correct-AreUpdated row (r ∷ table) = (
  elim (Bool-cases (same_entry row r)) [ inl e ↦ inr (e, rw e refl) | inr e ↦ inl (e, rw e refl) ],
  map-correct-AreUpdated row table,
)

-- How an upsert ends: a new entry is inserted after the others if its identifier is free, and is an
-- error if it is taken; an entry that is there is updated.
abbrev pub EndsUnique : List CalendarRow → CalendarRow → Result (Bool × List CalendarRow) → Type 0
EndsUnique table row (err e) = (has_entry table row ≡ false) × (has_id table row ≡ true)
EndsUnique table row (ok (true, after)) =
    (has_entry table row ≡ false)
    × (has_id table row ≡ false)
    × (after ≡ table ++ row ∷ [])
    × IsUnique after
EndsUnique table row (ok (false, after)) =
    (has_entry table row ≡ true) × AreUpdated row table after × IsUnique after

-- Of a table without two rows of one entry (source, release, instant and series) or one identifier, an
-- upsert of an entry that is there reports no insertion and leaves the table with that row's title,
-- importance, event type and precision replaced and nothing else changed. Of a new entry, it reports
-- the insertion and adds the row at the end exactly if its identifier is free, and raises exactly if
-- it is taken. The table that it leaves has no two rows of one entry or one identifier either.
pub upsert-IsUnique :
    (table : List CalendarRow) (row : CalendarRow)
    → IsUnique table
    → EndsUnique table row (upsert table row)
unfolding upsert
upsert-IsUnique table row u = elim (Bool-cases (has_entry table row)) [
  | inl e ↦ rw e (e, map-correct-AreUpdated row table, map-correct-IsUnique row table u)
  | inr e ↦ elim (Bool-cases (has_id table row)) [
    | inl i ↦ rw (e, i) (e, i)
    | inr i ↦ rw (e, i) (e, i, refl, append-IsUnique row table u e i)
  ]
]
