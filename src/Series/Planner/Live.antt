-- ===== src/Series/Planner/Live.antt =====
-- `plan_writes` on payloads in the order of collection: mios/series/planner.py.
use invest.Base.{
  ℕ, ◌≤◌, ◌<◌, ◌≡◌, refl, sym, ap, subst, ◌∙◌, inl, inr, Bool, true, false, Option, none, some,
  List, [], ◌∷◌, ◌++◌, arith, All, All-imp, All-append, sort_by, IsSorted, Bool-cases, append_assoc,
  append-nil, sort_by-IsSorted, sort_by_of_sorted, IsAscending, IsDistinct, sort_by-IsAscending,
  filter-IsDistinct, last?, lt→ltb, All-sort_by, All-filter,
}
use invest.Common.Decimal.{Decimal}
use invest.Series.Planner.{
  Vintage, vintage_of, value_before, value_before_from, write_of, has_value, same_value, plan_from,
  plan_writes, candidates_of,
}
use invest.Series.Planner.Agrees.{appended_after, plan_from_skip, plan_from_write}
use invest.Series.Planner.Stored.{stored_after}
use invest.Series.Planner.Distinct.{sorted_all_stored}

-- Each row states another value than the one before it.
abbrev pub IsChanges : List Vintage → Type 0
IsChanges [] = Unit
IsChanges (a ∷ []) = Unit
IsChanges (a ∷ b ∷ rows) = (same_value a.1 b.1 ≡ false) × IsChanges (b ∷ rows)

abbrev or_last : Bool × Option Decimal → Option Vintage → Bool × Option Decimal
or_last r none = r
or_last r (some (_, value)) = (true, value)

value_before_from-All :
    (timeline : List Vintage) (moment : ℕ) (found : Bool) (latest : Option Decimal)
    → All (λ v. v.0 < moment) timeline
    → value_before_from moment found latest timeline ≡ or_last (found, latest) (last? timeline)
unfolding value_before_from
value_before_from-All [] moment found latest h = refl
value_before_from-All (v ∷ []) moment found latest h = rw (lt→ltb v.0 moment h.0)
value_before_from-All (v ∷ w ∷ timeline) moment found latest h =
    rw (lt→ltb v.0 moment h.0)
      (value_before_from-All (w ∷ timeline) moment true v.1 h.1 ∙ last_some w timeline)
  where
    last_some :
        (w : Vintage) (timeline : List Vintage)
        → or_last (true, v.1) (last? (w ∷ timeline))
          ≡ or_last (found, latest) (last? (w ∷ timeline))
    last_some w [] = refl
    last_some w (u ∷ timeline) = last_some u timeline

IsChanges-append_one :
    (rows : List Vintage) (c : Vintage)
    → IsChanges rows
    → has_value (or_last (false, none) (last? rows)) c.1 ≡ false
    → IsChanges (rows ++ c ∷ [])
IsChanges-append_one [] c h e = tt
IsChanges-append_one (a ∷ []) c h e = (e, tt)
IsChanges-append_one (a ∷ b ∷ rows) c h e = (h.0, IsChanges-append_one (b ∷ rows) c h.1 e)

IsSorted-append_one :
    (rows : List Vintage) (c : Vintage)
    → IsSorted vintage_of rows
    → All (λ r. r.0 < c.0) rows
    → IsSorted vintage_of (rows ++ c ∷ [])
IsSorted-append_one [] c s h = (tt, tt)
IsSorted-append_one (r ∷ rows) c s h = (
  All-append (λ y. r.0 ≤ y.0) rows (c ∷ []) s.0 (omega arith, tt),
  IsSorted-append_one rows c s.1 h.1,
)

plan_from-IsChanges :
    (timeline candidates : List Vintage)
    → IsSorted vintage_of timeline
    → IsChanges timeline
    → IsAscending vintage_of candidates
    → All (λ c. All (λ r. r.0 < c.0) timeline) candidates
    → IsChanges (appended_after timeline (plan_from timeline candidates))
unfolding value_before
plan_from-IsChanges timeline [] s ch a h =
    unfold plan_from in subst IsChanges (sym (append-nil timeline)) ch
plan_from-IsChanges timeline (c ∷ candidates) s ch a h =
    elim (Bool-cases (has_value (value_before timeline c.0) c.1)) [
      | inl e ↦
          subst (λ p. IsChanges (appended_after timeline p))
            (sym (plan_from_skip timeline c candidates e))
            (plan_from-IsChanges timeline candidates s ch a.1 h.1)
      | inr e ↦
          let sorted = IsSorted-append_one timeline c s h.0 in
          let fresh : has_value (or_last (false, none) (last? timeline)) c.1 ≡ false =
            ap (λ r. has_value r c.1) (sym (value_before_from-All timeline c.0 false none h.0))
            ∙ e in
          subst (λ p. IsChanges (appended_after timeline p))
            (sym (plan_from_write timeline c candidates e))
            (subst
              (λ t.
                IsChanges (appended_after timeline (write_of timeline c ∷ plan_from t candidates)))
              (sym (sort_by_of_sorted vintage_of (timeline ++ c ∷ []) sorted))
              (subst IsChanges (append_assoc timeline (c ∷ []) _) (
                plan_from-IsChanges (timeline ++ c ∷ []) candidates sorted
                  (IsChanges-append_one timeline c ch fresh) a.1 (grow candidates h.1 a.0))))
    ]
  where
    grow :
        (cs : List Vintage)
        → All (λ d. All (λ r. r.0 < d.0) timeline) cs
        → All (λ d. c.0 < d.0) cs
        → All (λ d. All (λ r. r.0 < d.0) (timeline ++ c ∷ [])) cs
    grow [] k l = tt
    grow (d ∷ cs) k l =
        (All-append (λ r. r.0 < d.0) timeline (c ∷ []) k.0 (l.0, tt), grow cs k.1 l.1)

append-IsChanges :
    (existing incoming : List Vintage)
    → IsChanges (sort_by vintage_of existing)
    → IsDistinct vintage_of incoming
    → All (λ c. All (λ r. r.0 < c.0) existing) incoming
    → IsChanges (appended_after (sort_by vintage_of existing) (plan_writes existing incoming))
unfolding plan_writes candidates_of
append-IsChanges existing incoming ch d h =
    plan_from-IsChanges (sort_by vintage_of existing) (candidates_of existing incoming)
      (sort_by-IsSorted vintage_of existing) ch
      (sort_by-IsAscending vintage_of _ (filter-IsDistinct vintage_of _ incoming d))
      (All-sort_by vintage_of _ _ (
        All-filter _ _ incoming
          (All-imp incoming (λ c k _. All-sort_by vintage_of (λ r. r.0 < c.0) existing k) h)))

-- Where the rows stored for a period are the changes of its value, and a payload has one point for
-- each vintage and only vintages after all those stored, the rows that the plan adds continue the
-- changes: no row repeats the value of the row before it.
pub plan_writes-IsChanges :
    (existing incoming : List Vintage)
    → IsChanges (sort_by vintage_of existing)
    → IsDistinct vintage_of incoming
    → All (λ c. All (λ r. r.0 < c.0) existing) incoming
    → IsChanges (stored_after (sort_by vintage_of existing) (plan_writes existing incoming))
plan_writes-IsChanges existing incoming ch d h =
    subst IsChanges (sym (sorted_all_stored existing incoming d))
      (append-IsChanges existing incoming ch d h)
