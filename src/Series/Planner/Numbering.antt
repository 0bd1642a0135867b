-- ===== src/Series/Planner/Numbering.antt =====
-- `revision_n` and `is_revision` of a planned write, read off the rows that are finally stored.
use invest.Base.{
  ◌≤◌, ◌≡◌, sym, ap, subst, inl, inr, List, [], ◌∷◌, ◌++◌, arith, All, sort_by, IsSorted,
  IsDistinct, Bool-cases, append_assoc, sort_by-IsSorted,
}
use invest.Series.Planner.{
  Vintage, vintage_of, PlannedWrite, value_before, changes_before, write_of, has_value,
  join_timeline, plan_from, plan_writes, candidates_of,
}
use invest.Series.Planner.InForce.{
  in_force, reading, in_force-append_later, changes_before-append, changes_before_none,
}
use invest.Series.Planner.Agrees.{
  Agrees, Agrees-sort_by, Agrees-join_timeline, value_before-Agrees, appended_after, All-plan_from,
  plan_from_skip, plan_from_write,
}
use invest.Series.Planner.Stored.{stored_after}
use invest.Series.Planner.Distinct.{plan_writes_all_stored}

-- The write has the number of rows before it, and is a revision exactly if there is one.
pub record IsNumbered (rows : List Vintage) (w : PlannedWrite) : Type 0 where
  pub number : w.revision_n ≡ changes_before rows w.vintage_at
  pub revision : w.is_revision ≡ (reading (in_force rows w.vintage_at)).0

write_of-IsNumbered :
    (timeline rows later : List Vintage) (c : Vintage)
    → Agrees timeline rows
    → All (λ v. c.0 ≤ v.0) later
    → IsNumbered (rows ++ later) (write_of timeline c)
write_of-IsNumbered timeline rows later c a h = record {
  number =
      omega (
        arith,
        a.counts c.0,
        changes_before-append rows later c.0,
        changes_before_none later c.0 h,
      );
  revision =
      rw (in_force-append_later rows later c.0 h) (ap (λ r. r.0) (value_before-Agrees c.0 a));
}

plan_from-IsNumbered :
    (timeline rows candidates : List Vintage)
    → Agrees timeline rows
    → IsSorted vintage_of candidates
    → All
        (IsNumbered (appended_after rows (plan_from timeline candidates)))
        (plan_from timeline candidates)
unfolding plan_from
plan_from-IsNumbered timeline rows [] a s = tt
plan_from-IsNumbered timeline rows (c ∷ candidates) a s =
    elim (Bool-cases (has_value (value_before timeline c.0) c.1)) [
      | inl e ↦
          subst (λ p. All (IsNumbered (appended_after rows p)) p)
            (sym (plan_from_skip timeline c candidates e))
            (plan_from-IsNumbered timeline rows candidates a s.1)
      | inr e ↦
          subst (λ p. All (IsNumbered (appended_after rows p)) p)
            (sym (plan_from_write timeline c candidates e))
            (
              write_of-IsNumbered timeline rows _ c a (
                omega arith,
                All-plan_from (λ v. c.0 ≤ v.0) (join_timeline timeline c) candidates s.0,
              ),
              subst (λ r. All (IsNumbered r) (plan_from (join_timeline timeline c) candidates))
                  (append_assoc rows (c ∷ []) _)
                  (plan_from-IsNumbered (join_timeline timeline c) (rows ++ c ∷ []) candidates
                    (Agrees-join_timeline c a) s.1),
            )
    ]

append-IsNumbered :
    (existing incoming : List Vintage)
    → All
        (IsNumbered (appended_after existing (plan_writes existing incoming)))
        (plan_writes existing incoming)
unfolding plan_writes candidates_of
append-IsNumbered existing incoming =
    plan_from-IsNumbered (sort_by vintage_of existing) existing (candidates_of existing incoming)
      (Agrees-sort_by existing) (sort_by-IsSorted vintage_of _)

-- Where a payload has one point for each vintage, every planned write has as `revision_n` the number
-- of rows of its period that are before it once the plan is stored, and says `is_revision` exactly
-- when such a row is in force.
pub plan_writes-IsNumbered :
    (existing incoming : List Vintage)
    → IsDistinct vintage_of incoming
    → All
        (IsNumbered (stored_after existing (plan_writes existing incoming)))
        (plan_writes existing incoming)
plan_writes-IsNumbered existing incoming d =
    subst (λ rows. All (IsNumbered rows) (plan_writes existing incoming))
      (sym (plan_writes_all_stored existing incoming d)) (append-IsNumbered existing incoming)
