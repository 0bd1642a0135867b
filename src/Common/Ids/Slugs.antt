-- ===== src/Common/Ids/Slugs.antt =====
-- `slugify` and the pattern of slugs in mios/common/ids.py.
use mathlib.Core.Option.{some-injective}
use invest.Base.{
  ℕ, ◌≡◌, refl, sym, ap, ◌∙◌, ◌⊎◌, inl, inr, Bool, true, false, not, Option, if◌then◌else◌, some,
  [], ◌∷◌, arith, Bool-cases,
}
use invest.Common.Dates.{Date}
use invest.Common.Text.{Text, lower}
use invest.Common.Ids.{
  is_slug_char, collapse, lstrip_char, keep_char, rstrip_char, not_empty, slug_from, is_slug,
  slugify,
}

module _ (separator : ℕ) where
  -- Runs are replaced, so at most one separator stands in front.
  lstrip_char-collapse :
      (after : Bool) (s : Text)
      → is_slug_char separator ≡ false
      → lstrip_char separator (collapse separator after s) ≡ collapse separator true s
  unfolding lstrip_char collapse
  lstrip_char-collapse after [] h = refl
  lstrip_char-collapse true (c ∷ s) h = ground (arith, lstrip_char-collapse true s)
  lstrip_char-collapse false (c ∷ s) h = ground (arith, lstrip_char-collapse true s)

  abbrev IsTail : Bool → Text → Type 0
  IsTail after r = (r ≡ []) ⊎ (slug_from separator after r ≡ true)

  keep_char-slug :
      (after : Bool) (c : ℕ) (r : Text)
      → is_slug_char separator ≡ false
      → is_slug_char c ≡ true
      → IsTail true r
      → slug_from separator after (keep_char separator c r) ≡ true
  unfolding slug_from
  keep_char-slug after c [] h k t = ground arith
  keep_char-slug after c (d ∷ r) h k (inl e) = cc
  keep_char-slug after c (d ∷ r) h k (inr e) = rw k e

  keep_char-separator :
      (r : Text)
      → is_slug_char separator ≡ false
      → IsTail false r
      → IsTail true (keep_char separator separator r)
  unfolding slug_from
  keep_char-separator [] h t = inl (ground arith)
  keep_char-separator (d ∷ r) h (inl e) = cc
  keep_char-separator (d ∷ r) h (inr e) = inr (ground arith)

  -- A run that is replaced by the separator, or dropped.
  rstrip_char_run :
      (after : Bool) (t : Text)
      → is_slug_char separator ≡ false
      → IsTail false (rstrip_char separator t)
      → IsTail (not after) (rstrip_char separator (if after then t else separator ∷ t))
  unfolding rstrip_char
  rstrip_char_run true t h k = k
  rstrip_char_run false t h k = keep_char-separator (rstrip_char separator t) h k

  rstrip_char-IsTail :
      (after : Bool) (s : Text)
      → is_slug_char separator ≡ false
      → IsTail (not after) (rstrip_char separator (collapse separator after s))
  unfolding rstrip_char collapse
  rstrip_char-IsTail after [] h = inl refl
  rstrip_char-IsTail after (c ∷ s) h = elim (Bool-cases (is_slug_char c)) [
    | inl k ↦ rw k (inr (keep_char-slug (not after) c _ h k (rstrip_char-IsTail false s h)))
    | inr k ↦
        rw k (rstrip_char_run after (collapse separator true s) h (rstrip_char-IsTail true s h))
  ]

  not_empty_slug : (r s : Text) → IsTail false r → not_empty r ≡ some s → is_slug separator s ≡ true
  not_empty_slug [] s t e = cc
  not_empty_slug (c ∷ r) s (inl z) e = cc
  not_empty_slug (c ∷ r) s (inr z) e =
      ap (slug_from separator false) (sym (some-injective _ _ e)) ∙ z

-- What `slugify` gives is a slug, for a separator that is no letter and no digit.
pub slugify-is_slug :
    (week_date : Text → Option Date) (fold_ascii : Text → Text) (separator : ℕ) (s t : Text)
    → is_slug_char separator ≡ false
    → slugify week_date fold_ascii separator s ≡ some t
    → is_slug separator t ≡ true
unfolding slugify
slugify-is_slug week_date fold_ascii separator s t h e =
    not_empty_slug separator _ t (rstrip_char-IsTail separator true (lower (fold_ascii s)) h)
      (rw (lstrip_char-collapse separator false (lower (fold_ascii s)) h) at e)
