-- ===== src/Series/Planner/Distinct.antt =====
-- Payloads with one point for each vintage: every row that mios/series/planner.py plans is stored.

use invest.Base.{
  All-intro, ℕ, ◌<◌, ◌≡◌, refl, sym, ap, ◌∙◌, inl, inr, Bool, true, false, not, List, [], ◌∷◌, ◌++◌,
  map, arith, ◌==◌, All, All-imp₂, Bool-cases, append_assoc, append-nil, IsAscending, IsDistinct,
  sort_by-IsAscending, filter-IsDistinct, sort_by, All-sort_by,
}
use invest.Series.Planner.{
  Vintage, vintage_of, PlannedWrite, is_stored, has_value, value_before, join_timeline, plan_from,
  plan_writes, candidates_of,
}
use invest.Series.Planner.Agrees.{to_vintage, appended_after, All-plan_from}
use invest.Series.Planner.Stored.{insert_vintage, stored_after, is_stored-append, All-planned}

-- The planned vintages ascend as the candidates do.
plan_from-IsAscending :
    (timeline candidates : List Vintage)
    → IsAscending vintage_of candidates
    → IsAscending vintage_of (map to_vintage (plan_from timeline candidates))
unfolding plan_from
plan_from-IsAscending timeline [] h = tt
plan_from-IsAscending timeline (c ∷ candidates) h =
    elim (Bool-cases (has_value (value_before timeline c.0) c.1)) [
      | inl e ↦ rw e (plan_from-IsAscending timeline candidates h.1)
      | inr e ↦ rw e (
        All-plan_from (λ v. c.0 < v.0) (join_timeline timeline c) candidates h.0,
        plan_from-IsAscending (join_timeline timeline c) candidates h.1,
      )
    ]

not_stored-append :
    (rows : List Vintage) (c : Vintage) (v : ℕ)
    → is_stored rows v ≡ false
    → c.0 < v
    → is_stored (rows ++ c ∷ []) v ≡ false
not_stored-append rows c v e lt =
    is_stored-append rows (c ∷ []) v ∙ rw e (unfold is_stored in ground arith)

-- Nothing is dropped of rows that ascend and that the period does not have.
stored_after_ascending :
    (planned : List PlannedWrite) (rows : List Vintage)
    → IsAscending vintage_of (map to_vintage planned)
    → All (λ v. is_stored rows v.0 ≡ false) (map to_vintage planned)
    → stored_after rows planned ≡ appended_after rows planned
unfolding stored_after insert_vintage
stored_after_ascending [] rows a h = sym (append-nil rows)
stored_after_ascending (w ∷ planned) rows a h =
    ap (λ t. stored_after t planned) (unfold insert_vintage in rw h.0)
    ∙ stored_after_ascending planned (rows ++ to_vintage w ∷ []) a.1 (
        All-imp₂ (map to_vintage planned)
          (λ v new lt. not_stored-append rows (to_vintage w) v.0 new lt) h.1 a.0)
    ∙ append_assoc rows (to_vintage w ∷ []) (map to_vintage planned)

not_stored :
    (rows : List Vintage) (v : ℕ) → is_stored rows v ≡ false → All (λ r. (r.0 == v) ≡ false) rows
unfolding is_stored
not_stored [] v e = tt
not_stored (r ∷ rows) v e = (ground arith, not_stored rows v (ground arith))

not_stored_of :
    (rows : List Vintage) (v : ℕ) → All (λ r. (r.0 == v) ≡ false) rows → is_stored rows v ≡ false
unfolding is_stored
not_stored_of [] v h = refl
not_stored_of (r ∷ rows) v h = ground (arith, not_stored_of rows v h.1, h.0)

module _ (existing incoming : List Vintage) (d : IsDistinct vintage_of incoming) where
  all_stored :
      (rows : List Vintage)
      → ((v : ℕ) → is_stored existing v ≡ false → is_stored rows v ≡ false)
      → stored_after rows (plan_writes existing incoming)
        ≡ appended_after rows (plan_writes existing incoming)
  all_stored rows k =
      stored_after_ascending (plan_writes existing incoming) rows
        (unfold plan_writes candidates_of in
          plan_from-IsAscending (sort_by vintage_of existing) _
            (sort_by-IsAscending vintage_of _ (filter-IsDistinct vintage_of _ incoming d)))
        (All-planned existing incoming (λ v. is_stored rows v.0 ≡ false)
          (All-intro incoming (λ c new. k c.0 (fresh (is_stored existing c.0) new))))
    where
      fresh : (b : Bool) → not b ≡ true → b ≡ false
      fresh b e = ground arith

  -- Where a payload has one point for each vintage, every planned row is stored.
  pub plan_writes_all_stored :
      stored_after existing (plan_writes existing incoming)
      ≡ appended_after existing (plan_writes existing incoming)
  plan_writes_all_stored = all_stored existing (λ v e. e)

  pub sorted_all_stored :
      stored_after (sort_by vintage_of existing) (plan_writes existing incoming)
      ≡ appended_after (sort_by vintage_of existing) (plan_writes existing incoming)
  sorted_all_stored = all_stored (sort_by vintage_of existing) (λ v e.
      not_stored_of (sort_by vintage_of existing) v
        (All-sort_by vintage_of _ existing (not_stored existing v e)))
