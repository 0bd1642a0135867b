-- ===== src/Series/Planner/Stored.antt =====
-- The rows of one period once planned writes are inserted, as `write_points` of mios/series/repo.py
-- inserts them: a row whose vintage the period has is dropped (ON CONFLICT DO NOTHING).
use mathlib.Core.Bool.{false≢true}
use invest.Base.{
  ℕ, ◌≤◌, ◌<◌, ◌≡◌, refl, sym, ap, ◌∙◌, inl, inr, Bool, true, false, not, Option, none, some, List,
  [], ◌∷◌, ◌++◌, map, arith, ltb, leb, subst, ltb→lt, leb→le, ==_iff, ◌||◌, ◌&&◌, ◌==◌,
  if◌then◌else◌, All, All-imp, All-append, Bool-cases, append_assoc, append-nil, sort_by,
  All-sort_by, All-filter,
}
use invest.Common.Decimal.{Decimal}
use invest.Series.Planner.{Vintage, vintage_of, PlannedWrite, is_stored, plan_writes, candidates_of}
use invest.Series.Planner.InForce.{in_force, later_of, All-in_force}
use invest.Series.Planner.Agrees.{
  to_vintage, appended_after, in_force-append_one, newest, All-plan_from,
}

-- INSERT ... ON CONFLICT DO NOTHING, on the vintages of one period
unfoldable pub insert_vintage : List Vintage → Vintage → List Vintage
insert_vintage rows v = if is_stored rows v.0 then rows else rows ++ v ∷ []

-- The rows of the period once the planned writes are stored.
unfoldable pub stored_after : List Vintage → List PlannedWrite → List Vintage
unfolding insert_vintage
stored_after rows [] = rows
stored_after rows (w ∷ planned) = stored_after (insert_vintage rows (to_vintage w)) planned

pub is_stored-append :
    (xs ys : List Vintage) (v : ℕ) → is_stored (xs ++ ys) v ≡ (is_stored xs v || is_stored ys v)
unfolding is_stored
is_stored-append [] ys v = refl
is_stored-append (x ∷ xs) ys v = ground (arith, is_stored-append xs ys v)

-- The two lists have the same vintages and the same row in force at every moment.
pub record ReadsAs (rows others : List Vintage) : Type 0 where
  pub stored : (v : ℕ) → is_stored rows v ≡ is_stored others v
  pub same : (moment : ℕ) → in_force rows moment ≡ in_force others moment

-- Before a later moment, what is in force is not older than a vintage that is stored.
in_force_from :
    (rows : List Vintage) (v moment : ℕ)
    → is_stored rows v ≡ true
    → v < moment
    → (u : Vintage) × (in_force rows moment ≡ some u) × (v ≤ u.0)
unfolding is_stored in_force
in_force_from [] v moment h lt = absurd (false≢true h)
in_force_from (r ∷ rows) v moment h lt = elim (Bool-cases (is_stored rows v)) [
  | inl below ↦
      let (u, e, le) = in_force_from rows v moment below lt in
      let (w, q, k) = pick r u in (w, rw e q, k le)
  | inr new ↦
      let at_v : r.0 ≡ v = ground arith in
      let (w, q, k) = head (in_force rows moment) at_v in (w, q, k)
]
  where
    pick :
        (r u : Vintage)
        → (w : Vintage) × (later_of moment r (some u) ≡ some w) × (v ≤ u.0 → v ≤ w.0)
    pick r u = elim (Bool-cases (ltb u.0 r.0 && ltb r.0 moment)) [
      | inl e ↦ (r, rw e, λ le. ground arith)
      | inr e ↦ (u, rw e, λ le. le)
    ]

    head :
        (o : Option Vintage) → r.0 ≡ v → (w : Vintage) × (later_of moment r o ≡ some w) × (v ≤ w.0)
    head none e = (r, ground arith, omega arith)
    head (some u) e = elim (Bool-cases (ltb u.0 r.0 && ltb r.0 moment)) [
      | inl k ↦ (r, rw k, omega arith)
      | inr k ↦ (u, rw k, ground arith)
    ]

is_stored_again :
    (rows : List Vintage) (c : Vintage) (v : ℕ)
    → is_stored rows c.0 ≡ true
    → is_stored rows v ≡ is_stored (rows ++ c ∷ []) v
is_stored_again rows c v e = elim (Bool-cases (c.0 == v)) [
  | inl t ↦
      let here : is_stored rows v ≡ true =
        subst (λ u. is_stored rows u ≡ true) ((==_iff c.0 v).0 t) e in
      here ∙ sym (is_stored-append rows (c ∷ []) v ∙ ap (λ b. b || is_stored (c ∷ []) v) here)
  | inr t ↦
      let other : is_stored (c ∷ []) v ≡ false = unfold is_stored in rw t in
      sym (
        is_stored-append rows (c ∷ []) v
        ∙ ap (λ b. is_stored rows v || b) other
        ∙ or_false (is_stored rows v))
]
  where
    or_false : (b : Bool) → (b || false) ≡ b
    or_false true = refl
    or_false false = refl

-- A row that the period has already, with its value, changes no reading.
in_force_again :
    (rows : List Vintage) (f : ℕ → Option Decimal) (c : Vintage) (moment : ℕ)
    → is_stored rows c.0 ≡ true
    → c.1 ≡ f c.0
    → All (λ r. r.0 ≡ c.0 → r.1 ≡ f r.0) rows
    → in_force (rows ++ c ∷ []) moment ≡ in_force rows moment
in_force_again rows f c moment old cf fs = elim (Bool-cases (ltb c.0 moment)) [
  | inl before ↦
      let (u, e, le) = in_force_from rows c.0 moment old (ltb→lt c.0 moment before) in
      let value : u.0 ≡ c.0 → u.1 ≡ f u.0 = All-in_force _ rows moment fs e in
      in_force-append_one rows c moment
      ∙ rw e (elim (Bool-cases (leb u.0 c.0)) [
        | inl same ↦
            let at_c : u.0 ≡ c.0 = omega (arith, leb→le u.0 c.0 same) in
            rw (before, same)
              (ap some (pair_path (sym at_c) (cf ∙ ap f (sym at_c) ∙ sym (value at_c))))
        | inr newer ↦ rw (before, newer)
      ])
  | inr after ↦ in_force-append_one rows c moment ∙ kept (in_force rows moment) after
]
  where
    pair_path : {a b : Vintage} → a.0 ≡ b.0 → a.1 ≡ b.1 → a ≡ b
    pair_path p q = λ i. (p i, q i)

    kept : (o : Option Vintage) → ltb c.0 moment ≡ false → newest moment o c ≡ o
    kept none e = rw e
    kept (some w) e = rw e

-- A row to store that the existing rows do not have, with the value that `f` gives its vintage.
abbrev IsFresh : List Vintage → (ℕ → Option Decimal) → Vintage → Type 0
IsFresh existing f v = (not (is_stored existing v.0) ≡ true) × (v.1 ≡ f v.0)

module _ (existing : List Vintage) (f : ℕ → Option Decimal) where
  abbrev Stated : List Vintage → Type 0
  Stated rows = All (λ r. not (is_stored existing r.0) ≡ true → r.1 ≡ f r.0) rows

  ReadsAs-insert_vintage :
      (rows others : List Vintage) (c : Vintage)
      → ReadsAs rows others
      → Stated others
      → IsFresh existing f c
      → ReadsAs (insert_vintage rows c) (others ++ c ∷ [])
  unfolding insert_vintage
  ReadsAs-insert_vintage rows others c a st fresh = elim (Bool-cases (is_stored rows c.0)) [
    | inl old ↦
        let kept : is_stored others c.0 ≡ true = sym (a.stored c.0) ∙ old in
        rw old (record {
          stored = λ v. a.stored v ∙ is_stored_again others c v kept;
          same = λ m.
              a.same m
              ∙ sym (
                  in_force_again others f c m kept fresh.1 (
                    All-imp others (λ r h e. h (ap (λ v. not (is_stored existing v)) e ∙ fresh.0))
                      st));
        })
    | inr new ↦ rw new (record {
      stored = λ v. both rows others c v (a.stored v);
      same = λ m.
          in_force-append_one rows c m
          ∙ ap (λ o. newest m o c) (a.same m)
          ∙ sym (in_force-append_one others c m);
    })
  ]
    where
      both :
          (rows others : List Vintage) (c : Vintage) (v : ℕ)
          → is_stored rows v ≡ is_stored others v
          → is_stored (rows ++ c ∷ []) v ≡ is_stored (others ++ c ∷ []) v
      both rows others c v e =
          is_stored-append rows (c ∷ []) v
          ∙ ap (λ b. b || is_stored (c ∷ []) v) e
          ∙ sym (is_stored-append others (c ∷ []) v)

  -- Under one value for each vintage, storing reads as if no row were dropped.
  pub stored_after-ReadsAs :
      (planned : List PlannedWrite) (rows others : List Vintage)
      → ReadsAs rows others
      → Stated others
      → All (IsFresh existing f) (map to_vintage planned)
      → ReadsAs (stored_after rows planned) (appended_after others planned)
  unfolding stored_after
  stored_after-ReadsAs [] rows others a st h = subst (ReadsAs rows) (sym (append-nil others)) a
  stored_after-ReadsAs (w ∷ planned) rows others a st h =
      subst (ReadsAs (stored_after (insert_vintage rows (to_vintage w)) planned))
        (append_assoc others (to_vintage w ∷ []) (map to_vintage planned))
        (stored_after-ReadsAs planned (insert_vintage rows (to_vintage w))
          (others ++ to_vintage w ∷ []) (ReadsAs-insert_vintage rows others (to_vintage w) a st h.0)
          (All-append _ others _ st ((λ _. h.0.1), tt)) h.1)

  -- The existing rows say nothing of the fresh vintages.
  pub Stated-existing :
      (rows : List Vintage)
      → ((v : ℕ) → is_stored rows v ≡ true → is_stored existing v ≡ true)
      → Stated rows
  unfolding is_stored
  Stated-existing [] k = tt
  Stated-existing (r ∷ rows) k = (
    λ e. absurd (false≢true (ap not (sym (k r.0 (ground arith))) ∙ e)),
    Stated-existing rows (λ v h. k v (ground arith)),
  )

pub All-stored_after {κ} :
    (P : Vintage → Type κ) (planned : List PlannedWrite) (rows : List Vintage)
    → All P rows
    → All P (map to_vintage planned)
    → All P (stored_after rows planned)
unfolding stored_after insert_vintage
All-stored_after P [] rows r h = r
All-stored_after P (w ∷ planned) rows r h = elim (Bool-cases (is_stored rows w.vintage_at)) [
  | inl old ↦ rw old (All-stored_after P planned rows r h.1)
  | inr new ↦
      rw new (
        All-stored_after P planned (rows ++ to_vintage w ∷ []) (All-append P rows _ r (h.0, tt))
          h.1)
]

module _ (existing incoming : List Vintage) where
  pub All-planned {κ} :
      (P : Vintage → Type κ)
      → All (λ c. not (is_stored existing c.0) ≡ true → P c) incoming
      → All P (map to_vintage (plan_writes existing incoming))
  unfolding plan_writes candidates_of
  All-planned P h =
      All-plan_from P (sort_by vintage_of existing) _
        (All-sort_by vintage_of P _ (All-filter P _ incoming h))

  -- Under one value for each vintage, the rows that a plan leads to read as if none were dropped.
  pub plan_writes-ReadsAs :
      (f : ℕ → Option Decimal)
      → All (λ c. c.1 ≡ f c.0) incoming
      → ReadsAs
          (stored_after existing (plan_writes existing incoming))
          (appended_after existing (plan_writes existing incoming))
  plan_writes-ReadsAs f h =
      stored_after-ReadsAs existing f (plan_writes existing incoming) existing existing
        (record { stored = λ v. refl; same = λ m. refl })
        (Stated-existing existing f existing (λ v e. e))
        (All-planned (IsFresh existing f) (All-imp incoming (λ c e new. (new, e)) h))
