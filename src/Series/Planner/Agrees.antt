-- ===== src/Series/Planner/Agrees.antt =====
-- The sorted timeline that the loop of `plan_writes` keeps, against the rows in the order in which
-- they were stored.

use invest.Base.{
  ℕ, ◌≡◌, refl, sym, ap, ◌∙◌, inl, inr, true, false, Option, none, some, List, [], ◌∷◌, ◌++◌, map,
  arith, ltb, leb, ◌&&◌, if◌then◌else◌, All, sort_by, IsSorted, sort_by-IsSorted, Bool-cases,
}
use invest.Series.Planner.{
  Vintage, vintage_of, PlannedWrite, value_before, changes_before, write_of, has_value,
  join_timeline, plan_from,
}
use invest.Series.Planner.InForce.{
  in_force, reading, value_before_of_sorted, in_force-sort_by, changes_before-sort_by,
  changes_before-append, later_of,
}

abbrev pub newest : ℕ → Option Vintage → Vintage → Option Vintage
newest moment none c = if ltb c.0 moment then some c else none
newest moment (some w) c = if ltb c.0 moment && leb w.0 c.0 then some c else some w

-- What is in force after an append is decided by what was in force before.
pub in_force-append_one :
    (timeline : List Vintage) (c : Vintage) (moment : ℕ)
    → in_force (timeline ++ c ∷ []) moment ≡ newest moment (in_force timeline moment) c
unfolding in_force
in_force-append_one [] c moment = refl
in_force-append_one (v ∷ timeline) c moment =
    ap (later_of moment v) (in_force-append_one timeline c moment)
    ∙ swap_later (in_force timeline moment)
  where
    swap_later :
        (o : Option Vintage)
        → later_of moment v (newest moment o c) ≡ newest moment (later_of moment v o) c
    swap_later none = ground arith
    swap_later (some w) = ground arith

pub record Agrees (timeline rows : List Vintage) : Type 0 where
  pub sorted : IsSorted vintage_of timeline
  pub same : (moment : ℕ) → in_force timeline moment ≡ in_force rows moment
  pub counts : (moment : ℕ) → changes_before timeline moment ≡ changes_before rows moment

pub Agrees-sort_by : (rows : List Vintage) → Agrees (sort_by vintage_of rows) rows
Agrees-sort_by rows = record {
  sorted = sort_by-IsSorted vintage_of rows;
  same = in_force-sort_by rows;
  counts = changes_before-sort_by rows;
}

pub Agrees-join_timeline :
    {timeline rows : List Vintage} (c : Vintage)
    → Agrees timeline rows
    → Agrees (join_timeline timeline c) (rows ++ c ∷ [])
Agrees-join_timeline {timeline} {rows} c h = record {
  sorted = sort_by-IsSorted vintage_of (timeline ++ c ∷ []);
  same = λ m.
      in_force-sort_by (timeline ++ c ∷ []) m
      ∙ in_force-append_one timeline c m
      ∙ ap (λ o. newest m o c) (h.same m)
      ∙ sym (in_force-append_one rows c m);
  counts = λ m. omega (
    arith,
    changes_before-sort_by (timeline ++ c ∷ []) m,
    changes_before-append timeline (c ∷ []) m,
    changes_before-append rows (c ∷ []) m,
    h.counts m,
  );
}

pub value_before-Agrees :
    {timeline rows : List Vintage} (moment : ℕ)
    → Agrees timeline rows
    → value_before timeline moment ≡ reading (in_force rows moment)
value_before-Agrees {timeline} moment h =
    value_before_of_sorted timeline moment h.sorted ∙ ap reading (h.same moment)

abbrev pub to_vintage : PlannedWrite → Vintage
to_vintage w = (w.vintage_at, w.value)

-- The rows with the planned writes after them, a repeated vintage too.
abbrev pub appended_after : List Vintage → List PlannedWrite → List Vintage
appended_after rows planned = rows ++ map to_vintage planned

module _ (timeline : List Vintage) (c : Vintage) (candidates : List Vintage) where
  pub plan_from_skip :
      has_value (value_before timeline c.0) c.1 ≡ true
      → plan_from timeline (c ∷ candidates) ≡ plan_from timeline candidates
  unfolding plan_from
  plan_from_skip e = rw e

  pub plan_from_write :
      has_value (value_before timeline c.0) c.1 ≡ false
      → plan_from timeline (c ∷ candidates)
        ≡ write_of timeline c ∷ plan_from (join_timeline timeline c) candidates
  unfolding plan_from
  plan_from_write e = rw e

pub All-plan_from {κ} :
    (P : Vintage → Type κ) (timeline candidates : List Vintage)
    → All P candidates
    → All P (map to_vintage (plan_from timeline candidates))
unfolding plan_from
All-plan_from P timeline [] h = tt
All-plan_from P timeline (c ∷ candidates) h =
    elim (Bool-cases (has_value (value_before timeline c.0) c.1)) [
      | inl e ↦ rw e (All-plan_from P timeline candidates h.1)
      | inr e ↦ rw e (h.0, All-plan_from P (join_timeline timeline c) candidates h.1)
    ]
