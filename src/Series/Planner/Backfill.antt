-- ===== src/Series/Planner/Backfill.antt =====
-- `plan_writes` on backfills and on repeated vintages: mios/series/planner.py.
use mathlib.Core.Bool.{false≢true}
use invest.Base.{
  ℕ, ◌<◌, ◌≡◌, ◌∙◌, sym, true, false, Option, [], ◌∷◌, arith, sort_by, insert_by, subst, ◌==◌, map,
}
use invest.Common.Decimal.{Decimal}
use invest.Series.Planner.{
  vintage_of, same_value, plan_writes, candidates_of, is_stored, plan_from, value_before,
}
use invest.Series.Planner.Agrees.{to_vintage}
use invest.Series.Planner.Distinct.{plan_writes_all_stored}
use invest.Series.Planner.Settled.{rows_after}
use invest.Series.Planner.Live.{IsChanges}

module _ (early late : ℕ) (x : Option Decimal) (h : early < late) where
  candidate_backfill : candidates_of ((late, x) ∷ []) ((early, x) ∷ []) ≡ (early, x) ∷ []
  unfolding candidates_of is_stored sort_by insert_by
  candidate_backfill = let e : (late == early) ≡ false = ground arith in rw e

  plan_writes_backfill :
      map to_vintage (plan_writes ((late, x) ∷ []) ((early, x) ∷ [])) ≡ (early, x) ∷ []
  unfolding plan_writes plan_from value_before sort_by insert_by
  plan_writes_backfill = rw candidate_backfill (ground arith)

  sort_by_backfill : sort_by vintage_of ((late, x) ∷ (early, x) ∷ []) ≡ (early, x) ∷ (late, x) ∷ []
  unfolding sort_by insert_by
  sort_by_backfill = ground arith

  -- When a backfill brings, for an earlier vintage, the value that is the only one stored, the plan
  -- writes it and leaves the stored row, which then repeats the value of the row before it.
  pub backfill_repeats :
      same_value x x ≡ true
      → ¬ IsChanges (sort_by vintage_of (rows_after ((late, x) ∷ []) ((early, x) ∷ [])))
  backfill_repeats e changes =
      let rows : IsChanges (sort_by vintage_of ((late, x) ∷ (early, x) ∷ [])) =
        subst (λ r. IsChanges (sort_by vintage_of ((late, x) ∷ r))) plan_writes_backfill
          (subst (λ r. IsChanges (sort_by vintage_of r))
            (plan_writes_all_stored ((late, x) ∷ []) ((early, x) ∷ []) (tt, tt)) changes) in
      let pair : IsChanges ((early, x) ∷ (late, x) ∷ []) = subst IsChanges sort_by_backfill rows in
      false≢true (sym pair.0 ∙ e)

-- A payload that states a value twice for one vintage has two writes planned for it.
pub repeated_vintage :
    (v : ℕ) (x : Option Decimal)
    → map to_vintage (plan_writes [] ((v, x) ∷ (v, x) ∷ [])) ≡ (v, x) ∷ (v, x) ∷ []
unfolding plan_writes candidates_of is_stored plan_from value_before sort_by insert_by
repeated_vintage v x = ground arith
