-- ===== src/Series/Planner/InForce.antt =====
-- The value in force at a moment, read off a timeline in any order: the abstract view of the
-- timeline in mios/series/planner.py, which its sorted form agrees with.
use mathlib.Core.Option.{some-injective, none-ne-some}
use invest.Base.{
  ℕ, ◌+◌, ◌≤◌, ◌<◌, ◌≡◌, ◌⊎◌, refl, ap, subst, ◌∙◌, inl, inr, Bool, true, false, Option, none, some,
  List, [], ◌∷◌, ◌++◌, arith, ltb, ◌&&◌, if◌then◌else◌, All, All-imp, sort_by, insert_by, IsSorted,
  Bool-cases, ltb→lt, ltb→le,
}
use invest.Common.Decimal.{Decimal}
use invest.Series.Planner.{Vintage, vintage_of, value_before_from, value_before, changes_before}

-- `v` stands before what follows it in the timeline, so a later one with its vintage wins.
abbrev pub later_of : ℕ → Vintage → Option Vintage → Option Vintage
later_of moment v none = if ltb v.0 moment then some v else none
later_of moment v (some w) = if ltb w.0 v.0 && ltb v.0 moment then some v else some w

-- The newest entry strictly before `moment`.
unfoldable pub in_force : List Vintage → ℕ → Option Vintage
in_force [] moment = none
in_force (v ∷ timeline) moment = later_of moment v (in_force timeline moment)

abbrev pub reading : Option Vintage → Bool × Option Decimal
reading none = (false, none)
reading (some (_, value)) = (true, value)

in_force-insert_by :
    (v : Vintage) (timeline : List Vintage) (moment : ℕ)
    → in_force (insert_by vintage_of v timeline) moment ≡ in_force (v ∷ timeline) moment
unfolding in_force insert_by
in_force-insert_by v [] moment = refl
in_force-insert_by v (w ∷ timeline) moment = ground (arith, in_force-insert_by v timeline moment)

-- Sorting keeps the entry in force, so the order of arrival only decides between equal vintages.
pub in_force-sort_by :
    (timeline : List Vintage) (moment : ℕ)
    → in_force (sort_by vintage_of timeline) moment ≡ in_force timeline moment
unfolding in_force sort_by
in_force-sort_by [] moment = refl
in_force-sort_by (v ∷ timeline) moment =
    in_force-insert_by v (sort_by vintage_of timeline) moment
    ∙ ap (later_of moment v) (in_force-sort_by timeline moment)

pub in_force-none :
    (timeline : List Vintage) (moment : ℕ)
    → All (λ v. moment ≤ v.0) timeline
    → in_force timeline moment ≡ none
unfolding in_force
in_force-none [] moment h = refl
in_force-none (v ∷ timeline) moment h = ground (arith, in_force-none timeline moment h.1)

-- The entry in force is the head or comes from the rest.
later_of_cases :
    (moment : ℕ) (v : Vintage) (o : Option Vintage) {w : Vintage}
    → later_of moment v o ≡ some w
    → ((v ≡ w) × (v.0 < moment)) ⊎ (o ≡ some w)
later_of_cases moment v none e = elim (Bool-cases (ltb v.0 moment)) [
  | inl t ↦ inl (some-injective _ _ (rw t at e), ltb→lt _ _ t)
  | inr t ↦ absurd (none-ne-some _ (rw t at e))
]
later_of_cases moment v (some u) e = elim (Bool-cases (ltb u.0 v.0 && ltb v.0 moment)) [
  | inl t ↦ inl (some-injective _ _ (rw t at e), ground arith)
  | inr t ↦ inr (rw t at e)
]

-- What holds of every entry holds of the one in force.
pub All-in_force {κ} :
    (P : Vintage → Type κ) (timeline : List Vintage) (moment : ℕ) {w : Vintage}
    → All P timeline
    → in_force timeline moment ≡ some w
    → P w
unfolding in_force
All-in_force P [] moment h e = absurd (none-ne-some _ e)
All-in_force P (v ∷ timeline) moment h e =
    elim (later_of_cases moment v (in_force timeline moment) e) [
      | inl (same, _) ↦ subst P same h.0
      | inr below ↦ All-in_force P timeline moment h.1 below
    ]

pub in_force-lt :
    (timeline : List Vintage) (moment : ℕ) {w : Vintage}
    → in_force timeline moment ≡ some w
    → w.0 < moment
unfolding in_force
in_force-lt [] moment e = absurd (none-ne-some _ e)
in_force-lt (v ∷ timeline) moment e = elim (later_of_cases moment v (in_force timeline moment) e) [
  | inl (same, lt) ↦ subst (λ w. w.0 < moment) same lt
  | inr below ↦ in_force-lt timeline moment below
]

abbrev or_latest : Bool → Option Decimal → Option Vintage → Bool × Option Decimal
or_latest found latest none = (found, latest)
or_latest found latest (some (_, value)) = (true, value)

step_reading :
    (v moment : ℕ) (x : Option Decimal) (o : Option Vintage) (found : Bool)
    (latest : Option Decimal)
    → v < moment
    → ((w : Vintage) → o ≡ some w → v ≤ w.0)
    → or_latest true x o ≡ or_latest found latest (later_of moment (v, x) o)
step_reading v moment x none found latest h k = ground arith
step_reading v moment x (some w) found latest h k = ground (arith, k w refl)

value_before_from-in_force :
    (timeline : List Vintage) (moment : ℕ) (found : Bool) (latest : Option Decimal)
    → IsSorted vintage_of timeline
    → value_before_from moment found latest timeline
      ≡ or_latest found latest (in_force timeline moment)
unfolding value_before_from in_force
value_before_from-in_force [] moment found latest h = refl
value_before_from-in_force ((v, x) ∷ timeline) moment found latest h =
    elim (Bool-cases (ltb v moment)) [
      | inl e ↦ rw e (
          value_before_from-in_force timeline moment true x h.1
          ∙ step_reading v moment x (in_force timeline moment) found latest (ltb→lt _ _ e)
              (λ w q. All-in_force (λ y. v ≤ y.0) timeline moment h.0 q))
      | inr e ↦ rw (
        in_force-none timeline moment
            (All-imp timeline (λ w r. omega (arith, ltb→le v moment e)) h.0),
        e,
      )
    ]

-- `_value_before` on a sorted timeline reads the entry in force.
pub value_before_of_sorted :
    (timeline : List Vintage) (moment : ℕ)
    → IsSorted vintage_of timeline
    → value_before timeline moment ≡ reading (in_force timeline moment)
unfolding value_before
value_before_of_sorted timeline moment h =
    value_before_from-in_force timeline moment false none h
    ∙ or_latest_start (in_force timeline moment)
  where
    or_latest_start : (o : Option Vintage) → or_latest false none o ≡ reading o
    or_latest_start none = refl
    or_latest_start (some w) = refl

-- Entries that are not before `moment` change nothing at it, wherever they are appended.
pub in_force-append_later :
    (timeline later : List Vintage) (moment : ℕ)
    → All (λ v. moment ≤ v.0) later
    → in_force (timeline ++ later) moment ≡ in_force timeline moment
unfolding in_force
in_force-append_later [] later moment h = in_force-none later moment h
in_force-append_later (v ∷ timeline) later moment h =
    ap (later_of moment v) (in_force-append_later timeline later moment h)

-- An appended entry is in force if it is before `moment` and no entry is newer.
pub in_force-append_self :
    (timeline : List Vintage) (v : Vintage) (moment : ℕ)
    → v.0 < moment
    → All (λ w. (moment ≤ w.0) ⊎ (w.0 ≤ v.0)) timeline
    → in_force (timeline ++ v ∷ []) moment ≡ some v
unfolding in_force
in_force-append_self [] v moment h k = ground arith
in_force-append_self (w ∷ timeline) v moment h k =
    rw (in_force-append_self timeline v moment h k.1) (ground arith)

pub changes_before-append :
    (timeline later : List Vintage) (moment : ℕ)
    → changes_before (timeline ++ later) moment
      ≡ changes_before timeline moment + changes_before later moment
unfolding changes_before
changes_before-append [] later moment = omega arith
changes_before-append (v ∷ timeline) later moment =
    ground (arith, changes_before-append timeline later moment)

pub changes_before_none :
    (timeline : List Vintage) (moment : ℕ)
    → All (λ v. moment ≤ v.0) timeline
    → changes_before timeline moment ≡ 0
unfolding changes_before
changes_before_none [] moment h = refl
changes_before_none (v ∷ timeline) moment h =
    ground (arith, changes_before_none timeline moment h.1)

changes_before-insert_by :
    (v : Vintage) (timeline : List Vintage) (moment : ℕ)
    → changes_before (insert_by vintage_of v timeline) moment ≡ changes_before (v ∷ timeline) moment
unfolding changes_before insert_by
changes_before-insert_by v [] moment = refl
changes_before-insert_by v (w ∷ timeline) moment =
    ground (arith, changes_before-insert_by v timeline moment)

pub changes_before-sort_by :
    (timeline : List Vintage) (moment : ℕ)
    → changes_before (sort_by vintage_of timeline) moment ≡ changes_before timeline moment
unfolding sort_by changes_before
changes_before-sort_by [] moment = refl
changes_before-sort_by (v ∷ timeline) moment = ground (
  arith,
  changes_before-insert_by v (sort_by vintage_of timeline) moment,
  changes_before-sort_by timeline moment,
)
