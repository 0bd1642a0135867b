-- ===== src/Series/Calendar/Entries.antt =====
-- The entries of the schedule: what an upsert and a run leave in the table.

use invest.Base.{
  ◌≡◌, ◌≢◌, refl, ◌∙◌, subst, inl, inr, Bool, true, false, ◌||◌, List, [], ◌∷◌, ◌++◌, map,
  Bool-cases, arith, eq_refl,
}
use invest.Common.Errors.{Result, ok, err}
use invest.Series.Calendar.{CalendarRow, coalesce, same_entry, has_entry, has_id, correct, upsert}

same_entry-correct_right : (row a r : CalendarRow) → same_entry a (correct row r) ≡ same_entry a r
unfolding correct
same_entry-correct_right row a r = elim (Bool-cases (same_entry row r)) [
  | inl e ↦ rw e refl
  | inr e ↦ rw e refl
]

pub same_entry-correct_left :
    (row r b : CalendarRow) → same_entry (correct row r) b ≡ same_entry r b
unfolding correct
same_entry-correct_left row r b = elim (Bool-cases (same_entry row r)) [
  | inl e ↦ rw e refl
  | inr e ↦ rw e refl
]

pub has_entry-correct :
    (row a : CalendarRow) (table : List CalendarRow)
    → has_entry (map (correct row) table) a ≡ has_entry table a
has_entry-correct row a [] = refl
has_entry-correct row a (r ∷ table) =
    rw (same_entry-correct_right row a r, has_entry-correct row a table) refl

pub has_entry-append :
    (table : List CalendarRow) (row a : CalendarRow)
    → has_entry (table ++ row ∷ []) a ≡ (has_entry table a || same_entry a row)
has_entry-append [] row a = ground arith
has_entry-append (r ∷ table) row a = ground (arith, has_entry-append table row a)

same_entry_self : (row : CalendarRow) → same_entry row row ≡ true
same_entry_self row = ground (
  arith,
  eq_refl row.source_id,
  eq_refl row.provider_release_id,
  eq_refl (coalesce row.series_id),
)

-- An upsert that ends well has the row's entry, and keeps the entries that were there.
pub record IsUpserted (table : List CalendarRow) (row : CalendarRow) (table' : List CalendarRow)
    : Type 0 where
  pub present : has_entry table' row ≡ true
  pub kept : (a : CalendarRow) → has_entry table a ≡ true → has_entry table' a ≡ true

abbrev pub UpsertEnds : List CalendarRow → CalendarRow → Result (Bool × List CalendarRow) → Type 0
UpsertEnds table row (err e) = (has_entry table row ≡ false) × (has_id table row ≡ true)
UpsertEnds table row (ok (inserted, table')) = IsUpserted table row table'

pub upsert-UpsertEnds :
    (table : List CalendarRow) (row : CalendarRow) → UpsertEnds table row (upsert table row)
unfolding upsert
upsert-UpsertEnds table row = elim (Bool-cases (has_entry table row)) [
  | inl e ↦ rw e (record {
    present = has_entry-correct row row table ∙ e;
    kept = λ a h. has_entry-correct row a table ∙ h;
  })
  | inr e ↦ elim (Bool-cases (has_id table row)) [
    | inl i ↦ rw (e, i) (e, i)
    | inr i ↦
        rw (e, i)
          (record {
            present = ground (arith, has_entry-append table row row, same_entry_self row);
            kept = λ a h. ground (arith, has_entry-append table row a, h);
          })
  ]
]

of_upsert :
    (table : List CalendarRow) (row : CalendarRow) (inserted : Bool) (table' : List CalendarRow)
    → upsert table row ≡ ok (inserted, table')
    → IsUpserted table row table'
of_upsert table row inserted table' e = subst (UpsertEnds table row) e (upsert-UpsertEnds table row)

-- A release that the publisher moves is on the calendar twice: when a row is written for it at one
-- instant, and later a row at another, both entries are in the table, and they are two.
pub moved_release_stays :
    (table t1 t2 : List CalendarRow) (planned moved : CalendarRow) (i1 i2 : Bool)
    → planned.scheduled_at ≢ moved.scheduled_at
    → upsert table planned ≡ ok (i1, t1)
    → upsert t1 moved ≡ ok (i2, t2)
    → (has_entry t2 planned ≡ true)
      × (has_entry t2 moved ≡ true)
      × (same_entry planned moved ≡ false)
moved_release_stays table t1 t2 planned moved i1 i2 ne p q =
    let first = of_upsert table planned i1 t1 p in
    let second = of_upsert t1 moved i2 t2 q in
    (second.kept planned first.present, second.present, ground arith)
