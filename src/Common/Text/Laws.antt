-- ===== src/Common/Text/Laws.antt =====
-- Laws of the functions on texts.
use invest.Base.{ℕ, ◌≡◌, refl, ap, ◌∙◌, true, false, [], ◌∷◌, ◌++◌, All, arith, ◌==◌}
use invest.Common.Text.{
  Text, same_text, is_digit, is_space, lstrip, keep_before, rstrip, strip, grow_first, split,
}

pub same_text_refl : (s : Text) → same_text s s ≡ true
unfolding same_text
same_text_refl [] = refl
same_text_refl (c ∷ s) = ground (arith, same_text_refl s)

pub same_text_eq : (s t : Text) → same_text s t ≡ true → s ≡ t
unfolding same_text
same_text_eq [] [] h = refl
same_text_eq [] (d ∷ t) h = cc
same_text_eq (c ∷ s) [] h = cc
same_text_eq (c ∷ s) (d ∷ t) h = ground (arith, same_text_eq s t)

-- A text with no space in it is its own `strip`.
pub lstrip-no_space : (s : Text) → All (λ c. is_space c ≡ false) s → lstrip s ≡ s
unfolding lstrip
lstrip-no_space [] h = refl
lstrip-no_space (c ∷ s) h = rw h.0

keep_before-no_space : (c : ℕ) (s : Text) → is_space c ≡ false → keep_before c s ≡ c ∷ s
keep_before-no_space c [] h = rw h
keep_before-no_space c (d ∷ s) h = refl

pub rstrip-no_space : (s : Text) → All (λ c. is_space c ≡ false) s → rstrip s ≡ s
unfolding rstrip
rstrip-no_space [] h = refl
rstrip-no_space (c ∷ s) h =
    ap (keep_before c) (rstrip-no_space s h.1) ∙ keep_before-no_space c s h.0

pub strip-no_space : (s : Text) → All (λ c. is_space c ≡ false) s → strip s ≡ s
unfolding strip
strip-no_space s h = ap rstrip (lstrip-no_space s h) ∙ rstrip-no_space s h

-- A text is split at the first separator, when what stands before holds none.
pub split-append :
    (sep : ℕ) (s rest : Text)
    → All (λ c. (c == sep) ≡ false) s
    → split sep (s ++ sep ∷ rest) ≡ s ∷ split sep rest
unfolding split
split-append sep [] rest h = ground arith
split-append sep (c ∷ s) rest h = rw h.0 (ap (grow_first c) (split-append sep s rest h.1))

pub split-none : (sep : ℕ) (s : Text) → All (λ c. (c == sep) ≡ false) s → split sep s ≡ s ∷ []
unfolding split
split-none sep [] h = refl
split-none sep (c ∷ s) h = rw h.0 (ap (grow_first c) (split-none sep s h.1))

pub is_digit_no_space : (c : ℕ) → is_digit c ≡ true → is_space c ≡ false
is_digit_no_space c h = ground arith
