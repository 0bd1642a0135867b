-- ===== src/Series/Planner.antt =====
-- mios/series/planner.py: which vintages of one reference period are written.
pub mod InForce
pub mod Agrees
pub mod Stored
pub mod Distinct
pub mod Settled
pub mod Fidelity
pub mod Numbering
pub mod Live
pub mod Backfill
use invest.Base.{
  ℕ, suc, Bool, true, false, not, ◌&&◌, Option, none, some, List, [], ◌∷◌, ◌++◌, ltb, ◌==◌,
  if◌then◌else◌, any, filter, sort_by,
}
use invest.Common.Decimal.{Decimal, decimal_eq}

-- (vintage_at, value). An aware `datetime` is its microseconds since the year 1, UTC.
abbrev pub Vintage : Type 0
Vintage = ℕ × Option Decimal

pub record PlannedWrite : Type 0 where
  pub vintage_at : ℕ
  pub value : Option Decimal
  pub revision_n : ℕ
  pub is_revision : Bool

unfoldable pub same_value : Option Decimal → Option Decimal → Bool
same_value none none = true
same_value (some left) (some right) = decimal_eq left right
same_value _ _ = false

abbrev pub vintage_of : Vintage → ℕ
vintage_of v = v.0

-- The loop of `_value_before`, on what it has found so far.
unfoldable pub value_before_from : ℕ → Bool → Option Decimal → List Vintage → Bool × Option Decimal
value_before_from moment found latest [] = (found, latest)
value_before_from moment found latest ((vintage_at, value) ∷ timeline) =
    let rest = value_before_from moment true value timeline in
    if ltb vintage_at moment then rest else (found, latest)

unfoldable pub value_before : List Vintage → ℕ → Bool × Option Decimal
unfolding value_before_from
value_before timeline moment = value_before_from moment false none timeline

unfoldable pub changes_before : List Vintage → ℕ → ℕ
changes_before [] moment = 0
changes_before ((vintage_at, _) ∷ timeline) moment =
    let rest = changes_before timeline moment in if ltb vintage_at moment then suc rest else rest

-- `vintage in stored`
unfoldable pub is_stored : List Vintage → ℕ → Bool
is_stored existing v = any (λ e. e.0 == v) existing

abbrev pub has_value : Bool × Option Decimal → Option Decimal → Bool
has_value (had_predecessor, preceding) value = had_predecessor && same_value preceding value

abbrev pub write_of : List Vintage → Vintage → PlannedWrite
write_of timeline (vintage_at, value) = record {
  vintage_at = vintage_at;
  value = value;
  revision_n = changes_before timeline vintage_at;
  is_revision = (value_before timeline vintage_at).0;
}

-- `timeline.append(...)` and `timeline.sort(...)`
abbrev pub join_timeline : List Vintage → Vintage → List Vintage
join_timeline timeline c = sort_by vintage_of (timeline ++ c ∷ [])

-- The loop of `plan_writes` over the sorted candidates.
unfoldable pub plan_from : List Vintage → List Vintage → List PlannedWrite
plan_from timeline [] = []
plan_from timeline (c ∷ candidates) =
    let skipped = plan_from timeline candidates in
    let written = write_of timeline c ∷ plan_from (join_timeline timeline c) candidates in
    if has_value (value_before timeline c.0) c.1 then skipped else written

unfoldable pub candidates_of : List Vintage → List Vintage → List Vintage
candidates_of existing incoming =
    sort_by vintage_of (filter (λ v. not (is_stored existing v.0)) incoming)

unfoldable pub plan_writes : List Vintage → List Vintage → List PlannedWrite
plan_writes existing incoming =
    plan_from (sort_by vintage_of existing) (candidates_of existing incoming)
