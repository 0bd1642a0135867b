-- ===== src/Storage/Rows.antt =====
-- The statements of mios/prediction/repo.py and mios/analysis/repo.py on a table that has a primary
-- key, a second unique key and no update: the insert that declines to overwrite, and the reads by time.
use invest.Base.{
  ◌≡◌, refl, sym, ap, ◌∙◌, Bool, true, false, not, Option, none, some, String, List, [], ◌∷◌, ◌++◌,
  any, filter, filter-append, filter_none, All, All-append, arith, eq_iff, str_eq, if◌then◌else◌,
  append_assoc, append-nil, Bool-cases, inl, inr,
}
use invest.Common.Errors.{Result, ok, err, crash}

abbrev first_of {ℓ} : {A : Type ℓ} → Option A → Option A → Option A
first_of none o = o
first_of (some row) o = some row

module _ {ℓ} {A : Type ℓ} (id_of : A → String) where
  -- SELECT * ... WHERE id = ...
  unfoldable pub find_id : String → List A → Option A
  find_id id [] = none
  find_id id (row ∷ rows) =
      let rest = find_id id rows in if str_eq (id_of row) id then some row else rest

  find_id-append :
      (id : String) (xs ys : List A)
      → find_id id (xs ++ ys) ≡ first_of (find_id id xs) (find_id id ys)
  unfolding find_id
  find_id-append id [] ys = refl
  find_id-append id (x ∷ xs) ys = elim (Bool-cases (str_eq (id_of x) id)) [
    | inl e ↦ rw e refl
    | inr e ↦ rw e (find_id-append id xs ys)
  ]

  abbrev pub has_id : A → List A → Bool
  has_id row table = any (λ r. str_eq (id_of r) (id_of row)) table

  find_id_other :
      (id : String) (row : A) (table : List A)
      → str_eq (id_of row) id ≡ false
      → find_id id (table ++ row ∷ []) ≡ find_id id table
  unfolding find_id
  find_id_other id row [] h = ground arith
  find_id_other id row (r ∷ table) h = ground (arith, find_id_other id row table h)

  find_id_known :
      (id : String) (row : A) (table : List A)
      → has_id row table ≡ true
      → find_id id (table ++ row ∷ []) ≡ find_id id table
  unfolding find_id
  find_id_known id row [] h = ground arith
  find_id_known id row (r ∷ table) h = ground (
    arith,
    eq_iff (id_of r) (id_of row),
    eq_iff (id_of r) id,
    eq_iff (id_of row) id,
    find_id_other id row table,
    find_id_known id row table,
  )

module _ {ℓ} {A : Type ℓ} (id_of : A → String) (same_key : A → A → Bool) where
  -- INSERT ... ON CONFLICT (id) DO NOTHING RETURNING id: whether the row is new. A row that is new by
  -- its id and agrees with another in the second unique key raises.
  unfoldable pub insert_once : List A → A → List A × Result Bool
  insert_once table row =
      if has_id id_of row table
      then (table, ok false)
      else if any (λ r. same_key r row) table
      then (table, err (crash "UniqueViolation"))
      else (table ++ row ∷ [], ok true)

  -- One insert after another.
  unfoldable pub insert_each : List A → List A → List A
  unfolding insert_once
  insert_each table [] = table
  insert_each table (row ∷ rows) = insert_each (insert_once table row).0 rows

  -- No insert changes or removes a row; what is added is among the given rows.
  insert_once_adds {κ} :
      (P : A → Type κ) (table : List A) (row : A)
      → P row
      → (new : List A) × ((insert_once table row).0 ≡ table ++ new) × All P new
  unfolding insert_once
  insert_once_adds P table row p = elim (Bool-cases (has_id id_of row table)) [
    | inl e ↦ ([], rw e (sym (append-nil table)), tt)
    | inr e ↦ elim (Bool-cases (any (λ r. same_key r row) table)) [
      | inl f ↦ ([], rw (e, f) (sym (append-nil table)), tt)
      | inr f ↦ (row ∷ [], rw (e, f) refl, (p, tt))
    ]
  ]

  pub insert_each_adds {κ} :
      (P : A → Type κ) (table rows : List A)
      → All P rows
      → (new : List A) × (insert_each table rows ≡ table ++ new) × All P new
  unfolding insert_each
  insert_each_adds P table [] h = ([], sym (append-nil table), tt)
  insert_each_adds P table (row ∷ rows) h =
      let (new, e, p) = insert_once_adds P table row h.0 in
      let (more, f, q) = insert_each_adds P (insert_once table row).0 rows h.1 in
      (
        new ++ more,
        f ∙ ap (λ t. t ++ more) e ∙ append_assoc table new more,
        All-append P new more p q,
      )

pub kept {ℓ} :
    {A : Type ℓ} (wanted : A → Bool) (table new : List A) {after : List A}
    → after ≡ table ++ new
    → All (λ r. wanted r ≡ false) new
    → filter wanted after ≡ filter wanted table
kept wanted table new e h =
    rw
      (
        e,
        filter-append wanted table new,
        filter_none wanted new h,
        append-nil (filter wanted table),
      )
      refl

-- Rows of which the second key determines the id.
module _ {ℓ κ} {A : Type ℓ} (id_of : A → String) (same_key : A → A → Bool) (P : A → Type κ)
    (agree : (a b : A) → P a → P b → same_key a b ≡ true → id_of a ≡ id_of b) where
  new_key :
      (row : A) (table : List A)
      → P row
      → All P table
      → has_id id_of row table ≡ false
      → any (λ r. same_key r row) table ≡ false
  new_key row [] p h e = refl
  new_key row (r ∷ table) p h e =
      ground (arith, eq_iff (id_of r) (id_of row), agree r row h.0 p, new_key row table p h.1)

  -- Such an insert does not raise, keeps the property, and the table is read by id as if the row had
  -- been appended.
  pub insert_once_reads :
      (id : String) (table : List A) (row : A)
      → All P table
      → P row
      → let (after, stored) = insert_once id_of same_key table row in
        All P after
        × (stored ≡ ok (not (has_id id_of row table)))
        × (find_id id_of id after ≡ find_id id_of id (table ++ row ∷ []))
  unfolding insert_once
  insert_once_reads id table row h p = elim (Bool-cases (has_id id_of row table)) [
    | inl e ↦ rw e (h, refl, sym (find_id_known id_of id row table e))
    | inr e ↦ rw (e, new_key row table p h e) (All-append P table (row ∷ []) h (p, tt), refl, refl)
  ]

  pub find_id-insert_each :
      (id : String) (table rows : List A)
      → All P table
      → All P rows
      → find_id id_of id (insert_each id_of same_key table rows) ≡ find_id id_of id (table ++ rows)
  unfolding insert_each
  find_id-insert_each id table [] h p = ap (find_id id_of id) (sym (append-nil table))
  find_id-insert_each id table (row ∷ rows) h p =
      let (k, stored, e) = insert_once_reads id table row h p.0 in
      find_id-insert_each id (insert_once id_of same_key table row).0 rows k p.1
      ∙ find_id-append id_of id (insert_once id_of same_key table row).0 rows
      ∙ ap (λ o. first_of o (find_id id_of id rows)) e
      ∙ sym (find_id-append id_of id (table ++ row ∷ []) rows)
      ∙ ap (find_id id_of id) (append_assoc table (row ∷ []) rows)
