-- ===== src/Storage/Newest.antt =====
-- The reads by time of mios/prediction/repo.py and mios/analysis/repo.py.
use mathlib.Core.Option.{some-injective, none-ne-some}
use invest.Base.{
  ℕ, ◌≤◌, ◌≡◌, ◌≢◌, refl, sym, ap, subst, Bool, true, false, Option, none, some, List, [], ◌∷◌,
  filter, last?, All, All-imp, All-filter, All-of_filter, All-sort_by, All-of_sort_by, arith,
  sort_by, IsSorted, sort_by-IsSorted, inl, inr, IsIn, if◌then◌else◌,
}

module _ {ℓ} {A : Type ℓ} (time : A → ℕ) where
  -- SELECT * ... WHERE ... ORDER BY time DESC LIMIT 1; a unique key leaves no rows of one time.
  unfoldable pub newest_where : (A → Bool) → List A → Option A
  newest_where wanted table = last? (sort_by time (filter wanted table))

-- SELECT DISTINCT ON (...) ... ORDER BY ..., time DESC, on the rows in ascending order: the last row
-- of each run.
unfoldable pub last_of_each {ℓ} : {A : Type ℓ} → (A → A → Bool) → List A → List A
last_of_each same [] = []
last_of_each same (r ∷ []) = r ∷ []
last_of_each same (r ∷ s ∷ rows) =
    let rest = last_of_each same (s ∷ rows) in if same r s then rest else r ∷ rest

last-All {ℓ κ} :
    {A : Type ℓ} (P : A → Type κ) (xs : List A) (r : A) → All P xs → last? xs ≡ some r → P r
last-All P [] r h e = absurd (none-ne-some _ e)
last-All P (x ∷ []) r h e = subst P (some-injective _ _ e) h.0
last-All P (x ∷ y ∷ xs) r h e = last-All P (y ∷ xs) r h.1 e

each_of_list {ℓ} : {A : Type ℓ} (xs : List A) → All (λ x. IsIn x xs) xs
each_of_list [] = tt
each_of_list (x ∷ xs) = (inl refl, All-imp xs (λ y i. inr i) (each_of_list xs))

module _ {ℓ} {A : Type ℓ} (time : A → ℕ) where
  has_last : (x : A) (xs : List A) → last? (x ∷ xs) ≢ none
  has_last x [] e = none-ne-some x (sym e)
  has_last x (y ∷ xs) e = has_last y xs e

  last-newest :
      (xs : List A) (r : A) → IsSorted time xs → last? xs ≡ some r → All (λ x. time x ≤ time r) xs
  last-newest [] r s e = tt
  last-newest (x ∷ []) r s e = (omega (arith, ap time (some-injective _ _ e)), tt)
  last-newest (x ∷ y ∷ xs) r s e =
      let rest = last-newest (y ∷ xs) r s.1 e in
      (last-All (λ z. time x ≤ time z) (y ∷ xs) r s.0 e, rest)

  last-none : (xs : List A) → last? xs ≡ none → xs ≡ []
  last-none [] e = refl
  last-none (x ∷ []) e = absurd (none-ne-some x (sym e))
  last-none (x ∷ y ∷ xs) e = absurd (has_last y xs e)

module _ {A : Type 0} (time : A → ℕ) where
  -- The newest of the wanted rows, or that none is wanted.
  abbrev pub IsNewestOf : (A → Bool) → List A → Option A → Type 0
  IsNewestOf wanted table none = All (λ s. wanted s ≡ false) table
  IsNewestOf wanted table (some r) =
      IsIn r table × (wanted r ≡ true) × All (λ s. wanted s ≡ true → time s ≤ time r) table

  IsNewestOf-last :
      (wanted : A → Bool) (table : List A) (o : Option A)
      → last? (sort_by time (filter wanted table)) ≡ o
      → IsNewestOf wanted table o
  IsNewestOf-last wanted table none e =
      let rows = filter wanted table in
      let empty = last-none time (sort_by time rows) e in
      let kept = All-of_sort_by time (λ s. wanted s ≡ false) rows (rw empty tt) in
      All-imp table (λ s h. ground (arith, h))
        (All-of_filter (λ s. wanted s ≡ false) wanted table kept)
  IsNewestOf-last wanted table (some r) e =
      let rows = filter wanted table in
      let sorted = sort_by time rows in
      let is_in =
        All-filter (λ s. IsIn s table × (wanted s ≡ true)) wanted table
          (All-imp table (λ s i w. (i, w)) (each_of_list table)) in
      let found =
        last-All (λ s. IsIn s table × (wanted s ≡ true)) sorted r (All-sort_by time _ rows is_in)
          e in
      let newest =
        All-of_sort_by time (λ s. time s ≤ time r) rows
          (last-newest time sorted r (sort_by-IsSorted time rows) e) in
      (found.0, found.1, All-of_filter (λ s. time s ≤ time r) wanted table newest)

  pub newest_where-IsNewestOf :
      (wanted : A → Bool) (table : List A)
      → IsNewestOf wanted table (newest_where time wanted table)
  unfolding newest_where
  newest_where-IsNewestOf wanted table = IsNewestOf-last wanted table _ refl
