-- ===== src/Series/Planner/Fidelity.antt =====
-- Reads of the planned rows against the points of the payload: mios/series/planner.py.
use mathlib.Core.Bool.{false≢true}
use invest.Base.{
  ℕ, suc, ◌<◌, ◌≡◌, ◌⊎◌, refl, sym, ap, ◌∙◌, inl, inr, Bool, true, false, not, Option, none, some,
  List, [], ◌∷◌, map, arith, All, All-imp, All-get, IsIn, sort_by, Bool-cases, All-sort_by,
  All-filter,
}
use invest.Common.Decimal.{Decimal}
use invest.Series.Planner.{
  Vintage, vintage_of, value_before, same_value, has_value, is_stored, plan_writes, candidates_of,
}
use invest.Series.Planner.InForce.{in_force, reading, later_of, All-in_force, in_force-lt}
use invest.Series.Planner.Agrees.{Agrees-sort_by, value_before-Agrees, to_vintage, All-plan_from}
use invest.Series.Planner.Stored.{All-stored_after}
use invest.Series.Planner.Settled.{IsSettled, rows_after, IsSettled-incoming}

in_force_not_stored :
    (rows : List Vintage) (v : ℕ)
    → is_stored rows v ≡ false
    → in_force rows (suc v) ≡ in_force rows v
unfolding is_stored in_force
in_force_not_stored [] v h = refl
in_force_not_stored (r ∷ rows) v h = ground (arith, in_force_not_stored rows v)

newer_than_rest :
    (v : ℕ) (r : Vintage) (o : Option Vintage)
    → r.0 ≡ v
    → ((u : Vintage) → o ≡ some u → u.0 < v)
    → later_of (suc v) r o ≡ some r
newer_than_rest v r none e h = ground arith
newer_than_rest v r (some u) e h = ground (arith, h u refl)

-- A row at `v` itself is newer than all that is before the instant after `v`.
in_force_stored :
    (rows : List Vintage) (v : ℕ)
    → is_stored rows v ≡ true
    → (w : Vintage) × (in_force rows (suc v) ≡ some w) × (w.0 ≡ v)
unfolding is_stored in_force
in_force_stored [] v h = absurd (false≢true h)
in_force_stored (r ∷ rows) v h = elim (Bool-cases (is_stored rows v)) [
  | inl below ↦ let (w, e, q) = in_force_stored rows v below in (w, rw e (ground arith), q)
  | inr fresh ↦
      let at_v : r.0 ≡ v = ground arith in
      (
        r,
        newer_than_rest v r (in_force rows (suc v)) at_v
            (λ u e. in_force-lt rows v (sym (in_force_not_stored rows v fresh) ∙ e)),
        at_v,
      )
]

-- What a reading says of the value `x`: there is one in force, and it is `x`. (A NaN is not equal to
-- itself, so the two ways to be `x` are told apart.)
abbrev pub Recovers : Bool × Option Decimal → Option Decimal → Type 0
Recovers r x = (r.0 ≡ true) × ((r.1 ≡ x) ⊎ (same_value r.1 x ≡ true))

Recovers-settled :
    (rows : List Vintage) (f : ℕ → Option Decimal) (c : Vintage)
    → c.1 ≡ f c.0
    → All (λ r. r.0 ≡ c.0 → r.1 ≡ f r.0) rows
    → IsSettled rows c
    → Recovers (reading (in_force rows (suc c.0))) c.1
Recovers-settled rows f c cf fs settled = elim (Bool-cases (is_stored rows c.0)) [
  | inl old ↦
      let (w, e, q) = in_force_stored rows c.0 old in
      let value : w.1 ≡ f w.0 = All-in_force _ rows (suc c.0) fs e q in
      rw e (refl, inl (value ∙ ap f q ∙ sym cf))
  | inr new ↦ rw (in_force_not_stored rows c.0 new) (elim settled [
    | inl old ↦ absurd (false≢true (sym new ∙ old))
    | inr same ↦ found_and_same (reading (in_force rows c.0)) c.1 same
  ])
]
  where
    found_and_same :
        (r : Bool × Option Decimal) (x : Option Decimal) → has_value r x ≡ true → Recovers r x
    found_and_same (true, y) x e = (refl, inr e)
    found_and_same (false, y) x e = absurd (false≢true e)

not_at :
    (rows : List Vintage) (f : ℕ → Option Decimal) (v : ℕ)
    → not (is_stored rows v) ≡ true
    → All (λ r. r.0 ≡ v → r.1 ≡ f r.0) rows
unfolding is_stored
not_at [] f v h = tt
not_at (r ∷ rows) f v h = ((λ e. absurd (ground arith)), not_at rows f v (ground arith))

-- Where a payload states at most one value for each vintage, reading the period right after the
-- vintage of one of its points that was not stored before, once the plan is stored, finds a value
-- in force, and it is the value of the point.
pub value_before-rows_after :
    (f : ℕ → Option Decimal) (existing incoming : List Vintage)
    → All (λ c. c.1 ≡ f c.0) incoming
    → (c : Vintage) → IsIn c incoming
    → is_stored existing c.0 ≡ false
    → Recovers (value_before (sort_by vintage_of (rows_after existing incoming)) (suc c.0)) c.1
value_before-rows_after f existing incoming hf c m new =
    recover c (All-get _ c incoming hf m)
      (All-get _ c incoming (IsSettled-incoming f existing incoming hf) m) (ap not new)
  where
    planned : All (λ c. c.1 ≡ f c.0) (map to_vintage (plan_writes existing incoming))
    planned =
        unfold plan_writes candidates_of in
        All-plan_from (λ c. c.1 ≡ f c.0) _ _
          (All-sort_by vintage_of (λ c. c.1 ≡ f c.0) _
            (All-filter (λ c. c.1 ≡ f c.0) _ incoming (All-imp incoming (λ c e _. e) hf)))

    recover :
        (c : Vintage)
        → c.1 ≡ f c.0
        → (not (is_stored existing c.0) ≡ true → IsSettled (rows_after existing incoming) c)
        → not (is_stored existing c.0) ≡ true
        → Recovers (value_before (sort_by vintage_of (rows_after existing incoming)) (suc c.0)) c.1
    recover c cf settled new =
        rw (value_before-Agrees (suc c.0) (Agrees-sort_by (rows_after existing incoming))) (
          Recovers-settled (rows_after existing incoming) f c cf
            (All-stored_after _ (plan_writes existing incoming) existing (not_at existing f c.0 new)
              (All-imp _ (λ r e _. e) planned))
            (settled new))
