-- ===== src/Series/Repo/Writes.antt =====
-- What a write does to the table and what it reports.
use mathlib.Core.Bool.{false≢true}
use invest.Common.Dates.{Date}
use invest.Base.{
  ◌⊎◌, Bool, true, false, ◌&&◌, str_eq, ==_iff, subst, ℕ, ◌+◌, ◌≤◌, ◌<◌, ◌≡◌, sym, ap, ◌∙◌, inl,
  inr, not, filter, Option, String, List, [], ◌∷◌, ◌++◌, map, any, filter, length, All, All-imp,
  All-append, Bool-cases, arith, sort_by, group, members, length-append, length-map, total_length,
  total_length-group, push, group_from, ◌==◌, append_assoc, append-nil, length-sort_by,
  length-filter, All-sort_by, All-filter,
}
use invest.Series.Planner.{
  Vintage, vintage_of, PlannedWrite, plan_writes, plan_from, candidates_of, join_timeline,
  is_stored,
}
use invest.Series.Planner.Agrees.{All-plan_from, to_vintage}
use invest.Series.Repo.{
  SeriesSpec, Observation, Table, Point, vintage_or, dated_point, dated_write, row_of, plan_periods,
  same_key, insert_rows, planned_rows, write_points, as_of, vintages,
}
use invest.Series.Repo.AsOf.{as_of-append_later}

length-plan_from :
    (timeline candidates : List Vintage)
    → length (plan_from timeline candidates) ≤ length candidates
unfolding plan_from
length-plan_from timeline [] = omega arith
length-plan_from timeline (c ∷ candidates) = ground (
  arith,
  length-plan_from timeline candidates,
  length-plan_from (join_timeline timeline c) candidates,
)

length-plan_writes :
    (existing incoming : List Vintage) → length (plan_writes existing incoming) ≤ length incoming
unfolding plan_writes candidates_of
length-plan_writes existing incoming = omega (
  arith,
  length-plan_from (sort_by vintage_of existing) (candidates_of existing incoming),
  length-sort_by vintage_of (filter (λ v. not (is_stored existing v.0)) incoming),
  length-filter (λ (v : Vintage). not (is_stored existing v.0)) incoming,
)

length-plan_periods :
    (existing incoming : List (ℕ × List Vintage))
    → length (plan_periods existing incoming) ≤ total_length incoming
unfolding plan_periods total_length
length-plan_periods existing [] = omega arith
length-plan_periods existing ((d, candidates) ∷ incoming) =
    let planned = plan_writes (members d existing) candidates in
    omega (
      arith,
      length-plan_periods existing incoming,
      length-plan_writes (members d existing) candidates,
      length-append (map (dated_write d) planned) (plan_periods existing incoming),
      length-map (dated_write d) planned,
    )

-- Every point that a write is given is counted once, as written or as skipped.
pub write_points_counts :
    (table : Table) (spec : SeriesSpec) (points : List Point) (raw_item_id : String)
    (default_vintage : ℕ)
    → let result = (write_points table spec points raw_item_id default_vintage).1 in
      result.written + result.skipped ≡ length points
unfolding write_points
write_points_counts table spec points raw_item_id default_vintage =
    let pairs = map (dated_point default_vintage) points in
    omega (
      arith,
      length-plan_periods (vintages table spec.series_id) (group pairs),
      total_length-group pairs,
      length-map (dated_point default_vintage) points,
      length-map (λ (p : ℕ × PlannedWrite). row_of spec raw_item_id p.0 p.1)
          (planned_rows table spec points default_vintage),
    )

-- The table has a row of the period and vintage.
abbrev pub is_written : Table → String → Date → ℕ → Bool
is_written table series_id d v =
    any
      (λ (s : Observation).
        str_eq s.series_id series_id && (s.observation_date == d) && (s.vintage_at == v))
      table

any-append_one :
    (p : Observation → Bool) (table : Table) (r : Observation)
    → any p table ≡ true
    → any p (table ++ r ∷ []) ≡ true
any-append_one p [] r h = absurd (false≢true h)
any-append_one p (s ∷ table) r h = ground (arith, any-append_one p table r)

-- An insertion adds rows at the end, and only rows that it was given and whose key is not there.
insert_rows-append {κ} :
    (P : Observation → Type κ) (table : Table) (rows : List Observation)
    → All (λ r. P r ⊎ (any (λ s. same_key s r) table ≡ true)) rows
    → (later : List Observation) × (insert_rows table rows ≡ table ++ later) × All P later
unfolding insert_rows
insert_rows-append P table [] h = ([], sym (append-nil table), tt)
insert_rows-append P table (r ∷ rows) h = elim (Bool-cases (any (λ s. same_key s r) table)) [
  | inl e ↦ rw e (insert_rows-append P table rows h.1)
  | inr e ↦
      let grown = All-imp rows (λ t k. grow t k) h.1 in
      let (later, q, k) = insert_rows-append P (table ++ r ∷ []) rows grown in
      (r ∷ later, rw e (q ∙ append_assoc table (r ∷ []) later), (new h.0 e, k))
]
  where
    grow :
        (t : Observation)
        → P t ⊎ (any (λ s. same_key s t) table ≡ true)
        → P t ⊎ (any (λ s. same_key s t) (table ++ r ∷ []) ≡ true)
    grow t (inl p) = inl p
    grow t (inr m) = inr (any-append_one (λ s. same_key s t) table r m)

    new : P r ⊎ (any (λ s. same_key s r) table ≡ true) → any (λ s. same_key s r) table ≡ false → P r
    new (inl p) e = p
    new (inr m) e = absurd (false≢true (sym e ∙ m))

module _ (P : ℕ → Vintage → Type 0) where
  abbrev AllGroups : List (ℕ × List Vintage) → Type 0
  AllGroups [] = Unit
  AllGroups ((d, vs) ∷ groups) = All (P d) vs × AllGroups groups

  AllGroups-push :
      (k : ℕ) (v : Vintage) (groups : List (ℕ × List Vintage))
      → P k v
      → AllGroups groups
      → AllGroups (push k v groups)
  unfolding push
  AllGroups-push k v [] p h = ((p, tt), tt)
  AllGroups-push k v ((j, vs) ∷ groups) p h = elim (Bool-cases (j == k)) [
    | inl e ↦
        rw e (
          All-append (P j) vs (v ∷ []) h.0 (subst (λ i. P i v) (sym ((==_iff j k).0 e)) p, tt),
          h.1,
        )
    | inr e ↦ rw e (h.0, AllGroups-push k v groups p h.1)
  ]

  AllGroups-group_from :
      (groups : List (ℕ × List Vintage)) (pairs : List (ℕ × Vintage))
      → AllGroups groups
      → All (λ (p : ℕ × Vintage). P p.0 p.1) pairs
      → AllGroups (group_from groups pairs)
  unfolding group_from
  AllGroups-group_from groups [] g h = g
  AllGroups-group_from groups ((k, v) ∷ pairs) g h =
      AllGroups-group_from (push k v groups) pairs (AllGroups-push k v groups h.0 g) h.1

  All-plan_writes :
      (d : ℕ) (existing incoming : List Vintage)
      → All (P d) incoming
      → All (P d) (map to_vintage (plan_writes existing incoming))
  unfolding plan_writes candidates_of
  All-plan_writes d existing incoming h = All-plan_from (P d) (sort_by vintage_of existing) _ (
      All-sort_by vintage_of (P d) _
        (All-filter (P d) _ incoming (All-imp incoming (λ v p _. p) h)))

  All-dated_write :
      (d : ℕ) (planned : List PlannedWrite)
      → All (P d) (map to_vintage planned)
      → All (λ (p : ℕ × PlannedWrite). P p.0 (to_vintage p.1)) (map (dated_write d) planned)
  All-dated_write d [] h = tt
  All-dated_write d (w ∷ planned) h = (h.0, All-dated_write d planned h.1)

  All-plan_periods :
      (existing incoming : List (ℕ × List Vintage))
      → AllGroups incoming
      → All (λ (p : ℕ × PlannedWrite). P p.0 (to_vintage p.1)) (plan_periods existing incoming)
  unfolding plan_periods
  All-plan_periods existing [] h = tt
  All-plan_periods existing ((d, vs) ∷ incoming) h =
      All-append (λ (p : ℕ × PlannedWrite). P p.0 (to_vintage p.1)) _ _
        (All-dated_write d (plan_writes (members d existing) vs)
          (All-plan_writes d (members d existing) vs h.0))
        (All-plan_periods existing incoming h.1)

All-map {ℓ κ} :
    {A B : Type ℓ} (P : B → Type κ) (f : A → B) (xs : List A)
    → All (λ x. P (f x)) xs
    → All P (map f xs)
All-map P f [] h = tt
All-map P f (x ∷ xs) h = (h.0, All-map P f xs h.1)

-- A point is known after the instant, or the table has its period and vintage already.
abbrev pub IsNews : Table → String → ℕ → ℕ → Point → Type 0
IsNews table series_id instant default_vintage p =
    (instant < vintage_or p.2 default_vintage)
    ⊎ (is_written table series_id p.0 (vintage_or p.2 default_vintage) ≡ true)

-- A write adds rows at the end of the table. If every point is known after an instant, or has its
-- period and vintage in the table, the rows added are known after the instant, and a read as of it
-- returns what it returned before.
pub as_of-write_points_news :
    (table : Table) (spec : SeriesSpec) (points : List Point) (raw_item_id : String)
    (default_vintage instant : ℕ)
    → All (IsNews table spec.series_id instant default_vintage) points
    → let written = (write_points table spec points raw_item_id default_vintage).0 in
      ((later : List Observation) × (written ≡ table ++ later))
      × ((series_id : String) (start end : Option ℕ)
          → as_of written series_id instant start end ≡ as_of table series_id instant start end)
unfolding write_points
as_of-write_points_news table spec points raw_item_id default_vintage instant h =
    let (later, q, k) = appended in
    (
      (later, q),
      λ series_id start end.
          ap (λ t. as_of t series_id instant start end) q
          ∙ as_of-append_later table later series_id instant start end k,
    )
  where
    pairs : List (ℕ × Vintage)
    pairs = map (dated_point default_vintage) points

    News : ℕ → Vintage → Type 0
    News d v = (instant < v.0) ⊎ (is_written table spec.series_id d v.0 ≡ true)

    planned :
        All
          (λ (p : ℕ × PlannedWrite). News p.0 (to_vintage p.1))
          (planned_rows table spec points default_vintage)
    planned =
        unfold planned_rows group in
        All-plan_periods News (vintages table spec.series_id) _ (
          AllGroups-group_from News [] pairs tt
            (All-map (λ (p : ℕ × Vintage). News p.0 p.1) (dated_point default_vintage) points h))

    appended :
        (later : List Observation) × (insert_rows table (
            map
              (λ (p : ℕ × PlannedWrite). row_of spec raw_item_id p.0 p.1)
              (planned_rows table spec points default_vintage))
          ≡ table ++ later)
        × All (λ r. instant < r.vintage_at) later
    appended =
        insert_rows-append (λ r. instant < r.vintage_at) table _
          (All-map
            (λ (r : Observation). (instant < r.vintage_at) ⊎ (any (λ s. same_key s r) table ≡ true))
            (λ (p : ℕ × PlannedWrite). row_of spec raw_item_id p.0 p.1) _ planned)

-- A write adds rows at the end of the table and changes none. If the vintage of every point, its
-- own or the default one, is after an instant, every read as of that instant returns what it
-- returned before the write, for every series and every range of periods.
pub as_of-write_points :
    (table : Table) (spec : SeriesSpec) (points : List Point) (raw_item_id : String)
    (default_vintage instant : ℕ)
    → All (λ p. instant < vintage_or p.2 default_vintage) points
    → let written = (write_points table spec points raw_item_id default_vintage).0 in
      ((later : List Observation) × (written ≡ table ++ later))
      × ((series_id : String) (start end : Option ℕ)
          → as_of written series_id instant start end ≡ as_of table series_id instant start end)
as_of-write_points table spec points raw_item_id default_vintage instant h =
    as_of-write_points_news table spec points raw_item_id default_vintage instant
      (All-imp points (λ p lt. inl lt) h)
