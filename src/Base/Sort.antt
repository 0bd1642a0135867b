-- ===== src/Base/Sort.antt =====
-- Python's `sorted(xs, key=...)` and `list.sort(key=...)` by a numeric key: a stable sort.
use Prim.Native.Nat.{ℕ, ◌≤◌, ◌<◌, suc}
use mathlib.Core.Bool.{Bool}
use mathlib.Core.Path.{◌≡◌, refl, sym, ap, ◌∙◌}
use mathlib.Core.List.{List, [], ◌∷◌}
use native.Mathlib.Omega.{arith}
use invest.Base.Tests.{leb, if◌then◌else◌, leb→le, leb→lt, le→leb, Bool-cases}
use invest.Base.Lists.{All, All-imp, All-imp₂, All-filter, filter, length}
use mathlib.Core.Logic.{inl, inr, ◌≢◌}

module _ {ℓ} {A : Type ℓ} (key : A → ℕ) where
  -- `x` came earlier than the sorted rest, so it stays before what has its key.
  unfoldable pub insert_by : A → List A → List A
  insert_by x [] = x ∷ []
  insert_by x (y ∷ ys) = if leb (key x) (key y) then x ∷ y ∷ ys else y ∷ insert_by x ys

  unfoldable pub sort_by : List A → List A
  sort_by [] = []
  sort_by (x ∷ xs) = insert_by x (sort_by xs)

  abbrev pub IsSorted : List A → Type 0
  IsSorted [] = Unit
  IsSorted (x ∷ xs) = All (λ y. key x ≤ key y) xs × IsSorted xs

module _ {ℓ κ} {A : Type ℓ} (key : A → ℕ) (P : A → Type κ) where
  pub All-insert_by : (x : A) (xs : List A) → P x → All P xs → All P (insert_by key x xs)
  unfolding insert_by
  All-insert_by x [] p h = (p, tt)
  All-insert_by x (y ∷ ys) p h = elim (Bool-cases (leb (key x) (key y))) [
    | inl e ↦ rw e (p, h)
    | inr e ↦ rw e (h.0, All-insert_by x ys p h.1)
  ]

  pub All-sort_by : (xs : List A) → All P xs → All P (sort_by key xs)
  unfolding sort_by
  All-sort_by [] h = tt
  All-sort_by (x ∷ xs) h = All-insert_by x (sort_by key xs) h.0 (All-sort_by xs h.1)

  pub All-of_insert_by : (x : A) (xs : List A) → All P (insert_by key x xs) → P x × All P xs
  unfolding insert_by
  All-of_insert_by x [] h = h
  All-of_insert_by x (y ∷ ys) h = elim (Bool-cases (leb (key x) (key y))) [
    | inl e ↦ (rw e at h)
    | inr e ↦
        let h' : P y × All P (insert_by key x ys) = (rw e at h) in
        let r = All-of_insert_by x ys h'.1 in (r.0, (h'.0, r.1))
  ]

  pub All-of_sort_by : (xs : List A) → All P (sort_by key xs) → All P xs
  unfolding sort_by
  All-of_sort_by [] h = tt
  All-of_sort_by (x ∷ xs) h =
      let r = All-of_insert_by x (sort_by key xs) h in (r.0, All-of_sort_by xs r.1)

module _ {ℓ} {A : Type ℓ} (key : A → ℕ) where
  pub insert_by-IsSorted :
      (x : A) (xs : List A) → IsSorted key xs → IsSorted key (insert_by key x xs)
  unfolding insert_by
  insert_by-IsSorted x [] h = (tt, tt)
  insert_by-IsSorted x (y ∷ ys) h = elim (Bool-cases (leb (key x) (key y))) [
    | inl e ↦
        rw e ((leb→le _ _ e, All-imp ys (λ z r. omega (arith, leb→le (key x) (key y) e)) h.0), h)
    | inr e ↦ rw e (
      All-insert_by key (λ z. key y ≤ key z) x ys (omega (arith, leb→lt (key x) (key y) e)) h.0,
      insert_by-IsSorted x ys h.1,
    )
  ]

  pub sort_by-IsSorted : (xs : List A) → IsSorted key (sort_by key xs)
  unfolding sort_by
  sort_by-IsSorted [] = tt
  sort_by-IsSorted (x ∷ xs) = insert_by-IsSorted x (sort_by key xs) (sort_by-IsSorted xs)

  pub length-insert_by : (x : A) (xs : List A) → length (insert_by key x xs) ≡ suc (length xs)
  unfolding insert_by
  length-insert_by x [] = refl
  length-insert_by x (y ∷ ys) = ground (arith, length-insert_by x ys)

  pub length-sort_by : (xs : List A) → length (sort_by key xs) ≡ length xs
  unfolding sort_by
  length-sort_by [] = refl
  length-sort_by (x ∷ xs) = omega (arith, length-insert_by x (sort_by key xs), length-sort_by xs)

  insert_by_head : (x : A) (xs : List A) → All (λ y. key x ≤ key y) xs → insert_by key x xs ≡ x ∷ xs
  unfolding insert_by
  insert_by_head x [] h = refl
  insert_by_head x (y ∷ ys) h = rw (le→leb (key x) (key y) h.0)

  -- A sorted list is left as it is.
  pub sort_by_of_sorted : (xs : List A) → IsSorted key xs → sort_by key xs ≡ xs
  unfolding sort_by
  sort_by_of_sorted [] h = refl
  sort_by_of_sorted (x ∷ xs) h =
      ap (insert_by key x) (sort_by_of_sorted xs h.1) ∙ insert_by_head x xs h.0

  -- No two elements have one key.
  abbrev pub IsDistinct : List A → Type 0
  IsDistinct [] = Unit
  IsDistinct (x ∷ xs) = All (λ y. key x ≢ key y) xs × IsDistinct xs

  abbrev pub IsAscending : List A → Type 0
  IsAscending [] = Unit
  IsAscending (x ∷ xs) = All (λ y. key x < key y) xs × IsAscending xs

  insert_by-IsDistinct :
      (x : A) (xs : List A)
      → All (λ y. key x ≢ key y) xs
      → IsDistinct xs
      → IsDistinct (insert_by key x xs)
  unfolding insert_by
  insert_by-IsDistinct x [] h d = (tt, tt)
  insert_by-IsDistinct x (y ∷ ys) h d = elim (Bool-cases (leb (key x) (key y))) [
    | inl e ↦ rw e (h, d)
    | inr e ↦ rw e (
      All-insert_by key (λ z. key y ≢ key z) x ys (λ p. h.0 (sym p)) d.0,
      insert_by-IsDistinct x ys h.1 d.1,
    )
  ]

  sort_by-IsDistinct : (xs : List A) → IsDistinct xs → IsDistinct (sort_by key xs)
  unfolding sort_by
  sort_by-IsDistinct [] d = tt
  sort_by-IsDistinct (x ∷ xs) d =
      insert_by-IsDistinct x (sort_by key xs) (All-sort_by key (λ y. key x ≢ key y) xs d.0)
        (sort_by-IsDistinct xs d.1)

  ascending : (xs : List A) → IsSorted key xs → IsDistinct xs → IsAscending xs
  ascending [] s d = tt
  ascending (x ∷ xs) s d = (All-imp₂ xs (λ y le ne. omega arith) s.0 d.0, ascending xs s.1 d.1)

  -- Sorting distinct keys makes a strictly ascending list.
  pub sort_by-IsAscending : (xs : List A) → IsDistinct xs → IsAscending (sort_by key xs)
  sort_by-IsAscending xs d =
      ascending (sort_by key xs) (sort_by-IsSorted xs) (sort_by-IsDistinct xs d)

  pub filter-IsDistinct : (p : A → Bool) (xs : List A) → IsDistinct xs → IsDistinct (filter p xs)
  filter-IsDistinct p [] d = tt
  filter-IsDistinct p (x ∷ xs) d = elim (Bool-cases (p x)) [
    | inl e ↦ rw e (
      All-filter (λ y. key x ≢ key y) p xs (All-imp xs (λ y h _. h) d.0),
      filter-IsDistinct p xs d.1,
    )
    | inr e ↦ rw e (filter-IsDistinct p xs d.1)
  ]

module _ {ℓ} {A : Type ℓ} (key : A → ℕ) (p : A → Bool) where
  filter-insert_by :
      (x : A) (xs : List A)
      → IsSorted key xs
      → filter p (insert_by key x xs) ≡ (if p x then insert_by key x (filter p xs) else filter p xs)
  unfolding insert_by
  filter-insert_by x [] s = ground arith
  filter-insert_by x (y ∷ ys) s = elim (Bool-cases (leb (key x) (key y))) [
    | inl e ↦ rw e (
        ap (λ zs. if p x then zs else filter p (y ∷ ys))
          (sym (
            insert_by_head key x (filter p (y ∷ ys)) (
              All-filter (λ z. key x ≤ key z) p (y ∷ ys)
                (All-imp (y ∷ ys) (λ z le _. le)
                  (
                    leb→le (key x) (key y) e,
                    All-imp ys (λ z le. omega (arith, leb→le (key x) (key y) e)) s.0,
                  ))))))
    | inr e ↦ rw e ground (arith, filter-insert_by x ys s.1, e)
  ]

  -- A stable sort commutes with a filter.
  pub filter-sort_by : (xs : List A) → filter p (sort_by key xs) ≡ sort_by key (filter p xs)
  unfolding sort_by
  filter-sort_by [] = refl
  filter-sort_by (x ∷ xs) =
      filter-insert_by x (sort_by key xs) (sort_by-IsSorted key xs)
      ∙ ground (arith, filter-sort_by xs)
