-- ===== src/Validation/Metrics/Samples.antt =====
-- The groups of `MetricsReader.accuracy`: each row of a target and horizon is in their one group.
use invest.Base.{
  ℕ, ◌+◌, ◌≡◌, refl, ap, ◌∙◌, inl, inr, Bool, true, false, ◌&&◌, Option, String, List, [], ◌∷◌,
  filter, length, length-append, length-sort_by, filter-sort_by, sort_by, sort_by_text,
  insert_by_text, All-insert_by_text, All-sort_by_text, All-imp₂, text_leb, eq_refl, str_eq, eq_iff,
  All, All-imp, arith, Bool-cases, if◌then◌else◌,
}
use invest.Validation.Scoring.{ScoredForecast}
use invest.Validation.Metrics.{
  Group, of_target, rows, key_of, same_group, add_row, group_rows, sorted_groups,
}

same_group_sym : (a b : String × String) → same_group a b ≡ same_group b a
same_group_sym (a, b) (c, d) = ground (arith, eq_iff a c, eq_iff c a, eq_iff b d, eq_iff d b)

same_group_refl : (a : String × String) → same_group a a ≡ true
same_group_refl (a, b) = rw (eq_refl a, eq_refl b)

-- Equal keys are compared alike with any other.
same_group_left :
    (a b k : String × String) → same_group a b ≡ true → same_group a k ≡ same_group b k
same_group_left (a, b) (c, d) (e, f) h =
    let p : a ≡ c = (eq_iff a c).0 (ground arith) in
    let q : b ≡ d = (eq_iff b d).0 (ground arith) in
    ap (λ t. str_eq t e && str_eq b f) p ∙ ap (λ t. str_eq c e && str_eq t f) q

abbrev size_if : Bool → ℕ → ℕ
size_if b k = if b then k else 0

module _ {Float : Type 0} where
  -- The rows in the groups of a key.
  abbrev size_of : String × String → List (Group Float) → ℕ
  size_of k [] = 0
  size_of k ((j, members) ∷ groups) = size_if (same_group j k) (length members) + size_of k groups

  abbrev pub count_of : String × String → List (ScoredForecast Float) → ℕ
  count_of k rows = length (filter (λ r. same_group (key_of r) k) rows)

  size_of-add_row :
      (k : String × String) (row : ScoredForecast Float) (groups : List (Group Float))
      → size_of k (add_row row groups) ≡ size_of k groups + size_if (same_group (key_of row) k) 1
  unfolding add_row
  size_of-add_row k row [] = omega arith
  size_of-add_row k row ((j, members) ∷ groups) = elim (Bool-cases (same_group j (key_of row))) [
    | inl e ↦
        rw (e, same_group_left j (key_of row) k e, length-append members (row ∷ []))
          (joined (same_group (key_of row) k) (length members) (size_of k groups))
    | inr e ↦ rw e (omega (arith, size_of-add_row k row groups))
  ]
    where
      joined : (b : Bool) (m s : ℕ) → size_if b (m + 1) + s ≡ size_if b m + s + size_if b 1
      joined true m s = omega arith
      joined false m s = omega arith

  size_of-group_rows :
      (k : String × String) (groups : List (Group Float)) (rest : List (ScoredForecast Float))
      → size_of k (group_rows groups rest) ≡ size_of k groups + count_of k rest
  unfolding group_rows
  size_of-group_rows k groups [] = omega arith
  size_of-group_rows k groups (row ∷ rest) =
      let step = size_of-group_rows k (add_row row groups) rest in
      let one = size_of-add_row k row groups in
      elim (Bool-cases (same_group (key_of row) k)) [
        | inl e ↦ rw e (omega (arith, step, (rw e at one)))
        | inr e ↦ rw e (omega (arith, step, (rw e at one)))
      ]

  size_of-insert_by_text :
      (key : Group Float → String) (k : String × String) (g : Group Float)
      (groups : List (Group Float))
      → size_of k (insert_by_text key g groups) ≡ size_of k (g ∷ groups)
  unfolding insert_by_text
  size_of-insert_by_text key k g [] = refl
  size_of-insert_by_text key k g (h ∷ groups) =
      ground (arith, size_of-insert_by_text key k g groups)

  size_of-sort_by_text :
      (key : Group Float → String) (k : String × String) (groups : List (Group Float))
      → size_of k (sort_by_text key groups) ≡ size_of k groups
  unfolding sort_by_text
  size_of-sort_by_text key k [] = refl
  size_of-sort_by_text key k (g ∷ groups) = omega (
    arith,
    size_of-insert_by_text key k g (sort_by_text key groups),
    size_of-sort_by_text key k groups,
  )

  size_of-sorted_groups :
      (k : String × String) (groups : List (Group Float))
      → size_of k (sorted_groups groups) ≡ size_of k groups
  unfolding sorted_groups
  size_of-sorted_groups k groups =
      size_of-sort_by_text (λ g. g.0.0) k (sort_by_text (λ g. g.0.1) groups)
      ∙ size_of-sort_by_text (λ g. g.0.1) k groups

  -- No two groups have one key.
  abbrev pub AreKeyed : List (Group Float) → Type 0
  AreKeyed [] = Unit
  AreKeyed (g ∷ groups) =
      All (λ (h : Group Float). same_group g.0 h.0 ≡ false) groups × AreKeyed groups

  All-add_row :
      (k : String × String) (row : ScoredForecast Float) (groups : List (Group Float))
      → same_group k (key_of row) ≡ false
      → All (λ (h : Group Float). same_group k h.0 ≡ false) groups
      → All (λ (h : Group Float). same_group k h.0 ≡ false) (add_row row groups)
  unfolding add_row
  All-add_row k row [] e h = (e, tt)
  All-add_row k row ((j, members) ∷ groups) e h = elim (Bool-cases (same_group j (key_of row))) [
    | inl q ↦ rw q (h.0, h.1)
    | inr q ↦ rw q (h.0, All-add_row k row groups e h.1)
  ]

  add_row-AreKeyed :
      (row : ScoredForecast Float) (groups : List (Group Float))
      → AreKeyed groups
      → AreKeyed (add_row row groups)
  unfolding add_row
  add_row-AreKeyed row [] h = (tt, tt)
  add_row-AreKeyed row ((j, members) ∷ groups) h = elim (Bool-cases (same_group j (key_of row))) [
    | inl e ↦ rw e (h.0, h.1)
    | inr e ↦ rw e (All-add_row j row groups e h.0, add_row-AreKeyed row groups h.1)
  ]

  group_rows-AreKeyed :
      (groups : List (Group Float)) (rest : List (ScoredForecast Float))
      → AreKeyed groups
      → AreKeyed (group_rows groups rest)
  unfolding group_rows
  group_rows-AreKeyed groups [] h = h
  group_rows-AreKeyed groups (row ∷ rest) h =
      group_rows-AreKeyed (add_row row groups) rest (add_row-AreKeyed row groups h)

  insert_by_text-AreKeyed :
      (key : Group Float → String) (g : Group Float) (groups : List (Group Float))
      → All (λ (h : Group Float). same_group g.0 h.0 ≡ false) groups
      → AreKeyed groups
      → AreKeyed (insert_by_text key g groups)
  unfolding insert_by_text
  insert_by_text-AreKeyed key g [] a h = (tt, tt)
  insert_by_text-AreKeyed key g (f ∷ groups) a h = elim (Bool-cases (text_leb (key g) (key f))) [
    | inl e ↦ rw e (a, h)
    | inr e ↦ rw e (
      All-insert_by_text key (λ (x : Group Float). same_group f.0 x.0 ≡ false) g groups
          (same_group_sym f.0 g.0 ∙ a.0) h.0,
      insert_by_text-AreKeyed key g groups a.1 h.1,
    )
  ]

  sort_by_text-AreKeyed :
      (key : Group Float → String) (groups : List (Group Float))
      → AreKeyed groups
      → AreKeyed (sort_by_text key groups)
  unfolding sort_by_text
  sort_by_text-AreKeyed key [] h = tt
  sort_by_text-AreKeyed key (g ∷ groups) h =
      insert_by_text-AreKeyed key g (sort_by_text key groups)
        (All-sort_by_text key (λ (x : Group Float). same_group g.0 x.0 ≡ false) groups h.0)
        (sort_by_text-AreKeyed key groups h.1)

  no_size :
      (k : String × String) (groups : List (Group Float))
      → All (λ (h : Group Float). same_group k h.0 ≡ false) groups
      → size_of k groups ≡ 0
  no_size k [] h = refl
  no_size k ((j, members) ∷ groups) h =
      rw (same_group_sym j k, h.0) (omega (arith, no_size k groups h.1))

  -- A group has all the rows of its key.
  groups_sized :
      (groups : List (Group Float))
      → AreKeyed groups
      → All (λ (g : Group Float). size_of g.0 groups ≡ length g.1) groups
  groups_sized [] h = tt
  groups_sized (g ∷ groups) h = (
    rw (same_group_refl g.0) (omega (arith, no_size g.0 groups h.0)),
    All-imp₂ groups (λ f e s. rw e (omega (arith, s))) h.0 (groups_sized groups h.1),
  )

  sorted_groups-AreKeyed :
      (rest : List (ScoredForecast Float)) → AreKeyed (sorted_groups (group_rows [] rest))
  unfolding sorted_groups
  sorted_groups-AreKeyed rest =
      sort_by_text-AreKeyed (λ g. g.0.0) _
        (sort_by_text-AreKeyed (λ g. g.0.1) _ (group_rows-AreKeyed [] rest tt))

  count_of-rows :
      (k : String × String) (errors : List (ScoredForecast Float)) (target : Option String)
      → count_of k (rows errors target) ≡ count_of k (filter (of_target target) errors)
  unfolding rows
  count_of-rows k errors target =
      let kept = filter (of_target target) errors in
      let of_key : ScoredForecast Float → Bool = λ r. same_group (key_of r) k in
      ap length (filter-sort_by (λ r. r.target_period) of_key (sort_by (λ r. r.days_ahead) kept))
      ∙ length-sort_by (λ (r : ScoredForecast Float). r.target_period)
          (filter of_key (sort_by (λ r. r.days_ahead) kept))
      ∙ ap length (filter-sort_by (λ r. r.days_ahead) of_key kept)
      ∙ length-sort_by (λ (r : ScoredForecast Float). r.days_ahead) (filter of_key kept)

  -- The groups of the rows have different keys, and each has as many rows as there are of its key.
  pub groups-Samples :
      (errors : List (ScoredForecast Float)) (target : Option String)
      → let groups = sorted_groups (group_rows [] (rows errors target)) in
        AreKeyed groups
        × All
            (λ (g : Group Float). length g.1 ≡ count_of g.0 (filter (of_target target) errors))
            groups
  groups-Samples errors target =
      let rest = rows errors target in
      let keyed = sorted_groups-AreKeyed rest in
      (
        keyed,
        All-imp (sorted_groups (group_rows [] rest))
            (λ g e. omega (
              arith,
              e,
              size_of-sorted_groups g.0 (group_rows [] rest),
              size_of-group_rows g.0 [] rest,
              count_of-rows g.0 errors target,
            ))
            (groups_sized (sorted_groups (group_rows [] rest)) keyed),
      )
