-- ===== src/Common/Ids/Valid.antt =====
-- The makers of identifiers against `validate_id`, in mios/common/ids.py.
use mathlib.Core.Option.{some-injective, none-ne-some}
use invest.Base.{
  ℕ, ◌<◌, ◌≡◌, refl, sym, subst, ap, ◌∙◌, ◌⊎◌, inl, inr, true, false, Option, none, some, [], ◌∷◌,
  ◌++◌, arith, ◌==◌, Bool-cases, All, All-imp, if◌then◌else◌,
}
use invest.Common.Dates.{Date, is_date}
use invest.Common.Numerals.{◌>>=◌}
use invest.Common.Numerals.Laws.{
  iso_text, iso_date-iso_text, compact_text, iso_date-compact_text, take_two, take_four,
  is_date_bounds,
}
use invest.Common.Text.{Text}
use invest.Common.Text.Laws.{split-append}
use invest.Common.Ids.{
  IdKind, raw_item, evidence, agent_run, source, entity, chain, series, opaque, slug, dated, family,
  prefix_of, is_slug_char, is_slug, after_letters, after_day, is_dated, remove_prefix, slugify,
  with_prefix, make_slug_id, make_dated_id, is_valid_rest, validate_id,
}
use invest.Common.Ids.Slugs.{slugify-is_slug}

-- A prefix is taken off again.
remove_prefix-append : (p s : Text) → remove_prefix p (p ++ s) ≡ some s
unfolding remove_prefix
remove_prefix-append [] s = refl
remove_prefix-append (c ∷ p) s = ground (arith, remove_prefix-append p s)

-- The pattern's letters are those of the kind.
after_letters-prefix :
    (kind : IdKind) (s : Text) → after_letters false (prefix_of kind ++ s) ≡ some s
unfolding after_letters
after_letters-prefix raw_item s = refl
after_letters-prefix _ s = refl

after_day-iso_text :
    (y m d : ℕ) (s : Text) → is_date y m d ≡ true → after_day (iso_text y m d ++ b'_' ∷ s) ≡ some s
unfolding after_day
after_day-iso_text y m d s h =
    let (hy, hm, hd) = is_date_bounds y m d h in
    rw (take_four y _ hy) (rw (take_two m _ hm) (rw (take_two d (b'_' ∷ s) hd)))

-- The pattern asks for a dash where the month's digits stand.
after_day-compact_text :
    (y m d : ℕ) (s : Text)
    → is_date y m d ≡ true
    → after_day (compact_text y m d ++ b'_' ∷ s) ≡ none
unfolding after_day
after_day-compact_text y m d s h =
    let (hy, hm, hd) = is_date_bounds y m d h in rw (take_four y _ hy) (ground arith)

no_underscore : (y m d : ℕ) → is_date y m d ≡ true → All (λ c. (c == b'_') ≡ false) (iso_text y m d)
no_underscore y m d h =
    let (hy, hm, hd) = is_date_bounds y m d h in
    let below : All (λ c. c < 95) (iso_text y m d) = omega arith in
    All-imp {P = λ c. c < 95} {Q = λ c. (c == b'_') ≡ false} (iso_text y m d) (λ c lt. ground arith)
      below

family-cases :
    (kind : IdKind) → (family kind ≡ dated) ⊎ ((family kind ≡ slug) ⊎ (family kind ≡ opaque))
family-cases raw_item = inr (inr refl)
family-cases evidence = inr (inr refl)
family-cases agent_run = inr (inr refl)
family-cases source = inr (inl refl)
family-cases entity = inr (inl refl)
family-cases chain = inr (inl refl)
family-cases series = inr (inl refl)
family-cases _ = inl refl

module _ (week_date : Text → Option Date) (fold_ascii : Text → Text) where
  -- A slug of a maker: the name, or what `slugify` makes of it.
  abbrev slug_of : ℕ → Text → Option Text
  slug_of separator name =
      if is_slug separator name then some name else slugify week_date fold_ascii separator name

  slug_of-is_slug :
      (separator : ℕ) (name s : Text)
      → is_slug_char separator ≡ false
      → slug_of separator name ≡ some s
      → is_slug separator s ≡ true
  slug_of-is_slug separator name s h e = elim (Bool-cases (is_slug separator name)) [
    | inl k ↦ ap (is_slug separator) (sym (some-injective name s (rw k at e))) ∙ k
    | inr k ↦ slugify-is_slug week_date fold_ascii separator name s h (rw k at e)
  ]

  validate_id-prefix :
      (kind : IdKind) (rest : Text)
      → is_valid_rest week_date fold_ascii (family kind) (prefix_of kind ++ rest) rest ≡ true
      → validate_id week_date fold_ascii (prefix_of kind ++ rest) kind
        ≡ some (prefix_of kind ++ rest)
  unfolding validate_id
  validate_id-prefix kind rest h = rw (remove_prefix-append (prefix_of kind) rest) (rw h)

  made_slug :
      (kind : IdKind) (made : Option Text) (id : Text)
      → family kind ≡ slug
      → ((s : Text) → made ≡ some s → is_slug b'_' s ≡ true)
      → (made >>= λ s. some (with_prefix week_date fold_ascii kind s)) ≡ some id
      → validate_id week_date fold_ascii id kind ≡ some id
  made_slug kind none id fam k e = cc
  made_slug kind (some s) id fam k e =
      subst (λ (t : Text). validate_id week_date fold_ascii t kind ≡ some t) (some-injective _ _ e)
        (validate_id-prefix kind s (rw fam (k s refl)))

  -- Whatever the name, an identifier that `make_slug_id` makes is one that `validate_id` accepts.
  pub make_slug_id-validate_id :
      (kind : IdKind) (name id : Text)
      → make_slug_id week_date fold_ascii kind name ≡ some id
      → validate_id week_date fold_ascii id kind ≡ some id
  unfolding make_slug_id
  make_slug_id-validate_id source name id e =
      made_slug source _ id refl (λ s. slug_of-is_slug b'_' name s refl) e
  make_slug_id-validate_id entity name id e =
      made_slug entity _ id refl (λ s. slug_of-is_slug b'_' name s refl) e
  make_slug_id-validate_id chain name id e =
      made_slug chain _ id refl (λ s. slug_of-is_slug b'_' name s refl) e
  make_slug_id-validate_id series name id e =
      made_slug series _ id refl (λ s. slug_of-is_slug b'_' name s refl) e
  make_slug_id-validate_id _ name id e = cc

  -- What `validate_id` tests of a dated identifier, for a day in ISO form.
  dated_rest :
      (kind : IdKind) (y m d : ℕ) (s : Text)
      → is_date y m d ≡ true
      → is_slug b'-' s ≡ true
      → is_valid_rest week_date fold_ascii dated
          (prefix_of kind ++ (iso_text y m d ++ b'_' ∷ s))
          (iso_text y m d ++ b'_' ∷ s)
        ≡ true
  unfolding is_dated
  dated_rest kind y m d s h k = rw (after_letters-prefix kind (iso_text y m d ++ b'_' ∷ s)) (
      rw (after_day-iso_text y m d s h) (
        rw k (
          rw (split-append b'_' (iso_text y m d) s (no_underscore y m d h))
            (rw (iso_date-iso_text week_date y m d h)))))

  made_dated :
      (kind : IdKind) (y m d : ℕ) (made : Option Text) (id : Text)
      → family kind ≡ dated
      → is_date y m d ≡ true
      → ((s : Text) → made ≡ some s → is_slug b'-' s ≡ true)
      → (made >>= λ s. some (with_prefix week_date fold_ascii kind (iso_text y m d ++ b'_' ∷ s)))
        ≡ some id
      → validate_id week_date fold_ascii id kind ≡ some id
  made_dated kind y m d none id fam h k e = cc
  made_dated kind y m d (some s) id fam h k e =
      subst (λ (t : Text). validate_id week_date fold_ascii t kind ≡ some t) (some-injective _ _ e)
        (validate_id-prefix kind (iso_text y m d ++ b'_' ∷ s)
          (rw fam (dated_rest kind y m d s h (k s refl))))

  -- For a date that there is, in the form YYYY-MM-DD, and any name, an identifier that `make_dated_id`
  -- makes is one that `validate_id` accepts.
  pub make_dated_id-validate_id :
      (kind : IdKind) (y m d : ℕ) (name id : Text)
      → is_date y m d ≡ true
      → make_dated_id week_date fold_ascii kind (iso_text y m d) name ≡ some id
      → validate_id week_date fold_ascii id kind ≡ some id
  unfolding make_dated_id
  make_dated_id-validate_id kind y m d name id h e = elim (family-cases kind) [
    | inl fam ↦
        made_dated kind y m d (slug_of b'-' name) id fam h (λ s. slug_of-is_slug b'-' name s refl)
          (rw (iso_date-iso_text week_date y m d h) at (rw (fam, make_dated_id) at e))
    | inr (inl fam) ↦ absurd (none-ne-some id (rw (fam, make_dated_id) at e))
    | inr (inr fam) ↦ absurd (none-ne-some id (rw (fam, make_dated_id) at e))
  ]

  -- For a date without separators, which `make_dated_id` takes too, and a slug, the identifier that
  -- it makes is one that `validate_id` refuses.
  pub make_dated_id_compact :
      (kind : IdKind) (y m d : ℕ) (name : Text)
      → family kind ≡ dated
      → is_date y m d ≡ true
      → is_slug b'-' name ≡ true
      → (id : Text) × (make_dated_id week_date fold_ascii kind (compact_text y m d) name ≡ some id)
        × (validate_id week_date fold_ascii id kind ≡ none)
  unfolding make_dated_id validate_id is_dated
  make_dated_id_compact kind y m d name fam h k = (
    prefix_of kind ++ (compact_text y m d ++ b'_' ∷ name),
    rw (fam, make_dated_id) (rw (iso_date-compact_text week_date y m d h) (rw k)),
    rw (remove_prefix-append (prefix_of kind) (compact_text y m d ++ b'_' ∷ name)) (
        rw fam (
          rw (after_letters-prefix kind (compact_text y m d ++ b'_' ∷ name))
            (rw (after_day-compact_text y m d name h)))),
  )
