-- ===== src/Series/Planner/Settled.antt =====
-- `plan_writes` on a payload whose plan is stored: mios/series/planner.py.
use mathlib.Core.Bool.{false≢true}
use invest.Base.{
  Option, ℕ, ◌≤◌, ◌≡◌, ◌⊎◌, refl, sym, ap, subst, ◌∙◌, inl, inr, true, not, List, [], ◌∷◌, ◌++◌,
  map, arith, All, All-imp, sort_by, IsSorted, sort_by-IsSorted, Bool-cases, append_assoc,
  All-sort_by, All-of_sort_by, All-of_filter, All-filter,
}
use invest.Common.Decimal.{Decimal}
use invest.Series.Planner.{
  Vintage, vintage_of, value_before, has_value, join_timeline, plan_from, is_stored, plan_writes,
  candidates_of,
}
use invest.Series.Planner.InForce.{in_force, reading, in_force-append_later}
use invest.Series.Planner.Agrees.{
  Agrees, Agrees-sort_by, Agrees-join_timeline, value_before-Agrees, to_vintage, appended_after,
  All-plan_from, plan_from_skip, plan_from_write,
}
use invest.Series.Planner.Stored.{ReadsAs, stored_after, is_stored-append, plan_writes-ReadsAs}

abbrev pub IsSettled : List Vintage → Vintage → Type 0
IsSettled rows c =
    (is_stored rows c.0 ≡ true) ⊎ (has_value (reading (in_force rows c.0)) c.1 ≡ true)

is_stored_middle :
    (xs ys : List Vintage) (c : Vintage) → is_stored ((xs ++ c ∷ []) ++ ys) c.0 ≡ true
unfolding is_stored
is_stored_middle [] ys c = ground arith
is_stored_middle (x ∷ xs) ys c = ground (arith, is_stored_middle xs ys c)

pub plan_from-IsSettled :
    (timeline rows candidates : List Vintage)
    → Agrees timeline rows
    → IsSorted vintage_of candidates
    → All (IsSettled (appended_after rows (plan_from timeline candidates))) candidates
plan_from-IsSettled timeline rows [] a s = tt
plan_from-IsSettled timeline rows (c ∷ candidates) a s =
    elim (Bool-cases (has_value (value_before timeline c.0) c.1)) [
      | inl e ↦
          let in_time : has_value (reading (in_force rows c.0)) c.1 ≡ true =
            (rw (value_before-Agrees c.0 a) at e) in
          let later = All-plan_from (λ w. c.0 ≤ w.0) timeline candidates s.0 in
          subst (λ p. All (IsSettled (appended_after rows p)) (c ∷ candidates))
            (sym (plan_from_skip timeline c candidates e))
            (
              inr (rw (in_force-append_later rows _ c.0 later) in_time),
              plan_from-IsSettled timeline rows candidates a s.1,
            )
      | inr e ↦
          subst (λ p. All (IsSettled (appended_after rows p)) (c ∷ candidates))
            (sym (plan_from_write timeline c candidates e))
            (subst (λ r. All (IsSettled r) (c ∷ candidates)) (append_assoc rows (c ∷ []) _)
              (
                inl (is_stored_middle rows _ c),
                plan_from-IsSettled (join_timeline timeline c) (rows ++ c ∷ []) candidates
                    (Agrees-join_timeline c a) s.1,
              ))
    ]

-- If every candidate is in force already the loop plans nothing.
plan_from_nothing :
    (timeline candidates : List Vintage)
    → All (λ c. has_value (value_before timeline c.0) c.1 ≡ true) candidates
    → plan_from timeline candidates ≡ []
unfolding plan_from
plan_from_nothing timeline [] h = refl
plan_from_nothing timeline (c ∷ candidates) h = rw h.0 (plan_from_nothing timeline candidates h.1)

-- The candidates of a payload are settled by the rows that its plan leads to.
pub plan_writes-IsSettled :
    (existing incoming : List Vintage)
    → All
        (IsSettled (appended_after existing (plan_writes existing incoming)))
        (candidates_of existing incoming)
unfolding plan_writes
plan_writes-IsSettled existing incoming =
    plan_from-IsSettled (sort_by vintage_of existing) existing (candidates_of existing incoming)
      (Agrees-sort_by existing) sorted
  where
    sorted : IsSorted vintage_of (candidates_of existing incoming)
    sorted = unfold candidates_of in sort_by-IsSorted vintage_of _

IsSettled-ReadsAs :
    {rows others : List Vintage} (c : Vintage)
    → ReadsAs rows others
    → IsSettled others c
    → IsSettled rows c
IsSettled-ReadsAs c a (inl old) = inl (a.stored c.0 ∙ old)
IsSettled-ReadsAs c a (inr same) = inr (ap (λ o. has_value (reading o) c.1) (a.same c.0) ∙ same)

-- A row that a run has settled and that is not stored after it was a candidate of the run.
settled_again :
    (existing later rows : List Vintage) (c : Vintage)
    → ReadsAs rows (existing ++ later)
    → (not (is_stored existing c.0) ≡ true → IsSettled rows c)
    → not (is_stored rows c.0) ≡ true
    → has_value (reading (in_force rows c.0)) c.1 ≡ true
settled_again existing later rows c a h new = elim (h before) [
  | inl old ↦ absurd (false≢true (ap not (sym old) ∙ new))
  | inr same ↦ same
]
  where
    before : not (is_stored existing c.0) ≡ true
    before = ground (arith, is_stored-append existing later c.0, a.stored c.0)

abbrev pub rows_after : List Vintage → List Vintage → List Vintage
rows_after existing incoming = stored_after existing (plan_writes existing incoming)

module _ (f : ℕ → Option Decimal) (existing incoming : List Vintage)
    (stated : All (λ c. c.1 ≡ f c.0) incoming) where
  pub IsSettled-incoming :
      All
        (λ c. not (is_stored existing c.0) ≡ true → IsSettled (rows_after existing incoming) c)
        incoming
  unfolding candidates_of
  IsSettled-incoming = All-of_filter (IsSettled (rows_after existing incoming)) _ incoming (
      All-of_sort_by vintage_of (IsSettled (rows_after existing incoming)) _ (
        All-imp (candidates_of existing incoming)
          (λ c h. IsSettled-ReadsAs c (plan_writes-ReadsAs existing incoming f stated) h)
          (plan_writes-IsSettled existing incoming)))

  again_in_force :
      All
        (λ c. has_value (reading (in_force (rows_after existing incoming) c.0)) c.1 ≡ true)
        (candidates_of (rows_after existing incoming) incoming)
  unfolding candidates_of
  again_in_force = All-sort_by vintage_of _ _ (
      All-filter _ _ incoming (
        All-imp incoming
          (λ c.
            settled_again existing (map to_vintage (plan_writes existing incoming))
              (rows_after existing incoming) c (plan_writes-ReadsAs existing incoming f stated))
          IsSettled-incoming))

  -- Where a payload states at most one value for each vintage, planning is idempotent: once the plan
  -- is stored beside the existing rows, the same payload plans nothing more, whatever the order of
  -- its points and with repeated vintages too.
  pub plan_writes-stored_after : plan_writes (rows_after existing incoming) incoming ≡ []
  plan_writes-stored_after =
      let rows = rows_after existing incoming in
      unfold plan_writes in
      plan_from_nothing (sort_by vintage_of rows) (candidates_of rows incoming) (
        All-imp (candidates_of rows incoming)
          (λ c h. ap (λ r. has_value r c.1) (value_before-Agrees c.0 (Agrees-sort_by rows)) ∙ h)
          again_in_force)
