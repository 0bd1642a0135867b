-- ===== src/Common/Numerals/Laws/Figures.antt =====
-- A figure in its plain form: a sign or none, digits, and a fraction or none.
use invest.Base.{
  ℕ, ◌≡◌, refl, ap, Bool, true, false, ◌||◌, some, [], ◌∷◌, ◌++◌, All, All-imp, All-append, length,
  ◌==◌, arith,
}
use invest.Base.Int.{ℤ, pos, negsuc, scale}
use invest.Common.Decimal.{Decimal, finite}
use invest.Common.Text.{Text, same_text, is_digit, lower, strip}
use invest.Common.Text.Laws.{strip-no_space}
use invest.Common.Numerals.{
  number_from, all_digits, sign_of, signed, span_digits, span_fraction, read_exponent, is_nan,
  drop_s, is_infinity, finite_of, read_unsigned, no_underscores, read_decimal,
}

-- The value of a figure.
abbrev pub figure_value : Bool → Text → Text → Decimal
figure_value minus whole fraction =
    finite (signed minus (number_from (number_from 0 whole) fraction)) (length fraction)

abbrev pub point : Text → Text
point [] = []
point (c ∷ s) = b'.' ∷ c ∷ s

abbrev pub with_sign : Bool → Text → Text
with_sign true s = b'-' ∷ s
with_sign false s = s

abbrev pub figure_text : Bool → Text → Text → Text
figure_text minus whole fraction = with_sign minus (whole ++ point fraction)

abbrev is_plain : ℕ → Bool
is_plain c = is_digit c || ((c == b'.') || (c == b'-'))

abbrev Plain : Text → Type 0
Plain s = All (λ c. is_plain c ≡ true) s

Plain-all_digits : (s : Text) → all_digits s ≡ true → Plain s
unfolding all_digits
Plain-all_digits [] h = tt
Plain-all_digits (c ∷ s) h = (ground arith, Plain-all_digits s (ground arith))

Plain-point : (s : Text) → all_digits s ≡ true → Plain (point s)
Plain-point [] h = tt
Plain-point (c ∷ s) h = (refl, Plain-all_digits (c ∷ s) h)

Plain-figure_text :
    (minus : Bool) (whole fraction : Text)
    → all_digits whole ≡ true
    → all_digits fraction ≡ true
    → Plain (figure_text minus whole fraction)
Plain-figure_text minus whole fraction hw hf =
    let unsigned =
      All-append (λ c. is_plain c ≡ true) whole (point fraction) (Plain-all_digits whole hw)
        (Plain-point fraction hf) in
    elim minus as (λ b. Plain (figure_text b whole fraction)) [
      | true ↦ (refl, unsigned)
      | false ↦ unsigned
    ]

strip-Plain : (s : Text) → Plain s → strip s ≡ s
strip-Plain s h = strip-no_space s (All-imp s (λ c p. ground arith) h)

no_underscores-Plain : (s : Text) → Plain s → no_underscores s ≡ s
no_underscores-Plain [] h = refl
no_underscores-Plain (c ∷ s) h = ground (arith, no_underscores-Plain s h.1)

lower-Plain : (s : Text) → Plain s → lower s ≡ s
unfolding lower
lower-Plain [] h = refl
lower-Plain (c ∷ s) h = ground (arith, lower-Plain s h.1)

is_nan-digit : (c : ℕ) (s : Text) → is_digit c ≡ true → is_nan (drop_s (c ∷ s)) ≡ false
unfolding is_nan same_text
is_nan-digit c [] h = ground arith
is_nan-digit c (d ∷ []) h = ground arith
is_nan-digit c (d ∷ e ∷ s) h = ground arith

is_infinity-digit : (c : ℕ) (s : Text) → is_digit c ≡ true → is_infinity (c ∷ s) ≡ false
unfolding same_text
is_infinity-digit c s h = ground arith

sign_of-with_sign :
    (minus : Bool) (c : ℕ) (s : Text)
    → is_digit c ≡ true
    → sign_of (with_sign minus (c ∷ s)) ≡ (minus, c ∷ s)
unfolding sign_of
sign_of-with_sign true c s h = refl
sign_of-with_sign false c s h = ground arith

span_digits-point :
    (whole fraction : Text)
    → all_digits whole ≡ true
    → span_digits (whole ++ point fraction) ≡ (whole, point fraction)
unfolding span_digits all_digits
span_digits-point [] [] h = refl
span_digits-point [] (c ∷ s) h = refl
span_digits-point (c ∷ s) fraction h = ground (arith, span_digits-point s fraction)

span_digits-all_digits : (s : Text) → all_digits s ≡ true → span_digits s ≡ (s, [])
unfolding span_digits all_digits
span_digits-all_digits [] h = refl
span_digits-all_digits (c ∷ s) h = ground (arith, span_digits-all_digits s)

span_fraction-point : (s : Text) → all_digits s ≡ true → span_fraction (point s) ≡ (s, [])
unfolding span_fraction
span_fraction-point [] h = refl
span_fraction-point (c ∷ s) h = span_digits-all_digits (c ∷ s) h

scale_one : (n : ℤ) → scale n 1 ≡ n
scale_one (pos n) = ground arith
scale_one (negsuc n) = ground arith

first_digit : (c : ℕ) (s : Text) → all_digits (c ∷ s) ≡ true → is_digit c ≡ true
unfolding all_digits
first_digit c s h = ground arith

-- What is left once the digits are taken off.
finish :
    (minus : Bool) (c : ℕ) (s fraction : Text)
    → finite_of minus (c ∷ s, point fraction) (λ _. (fraction, []))
      ≡ some (figure_value minus (c ∷ s) fraction)
unfolding read_exponent
finish minus c s fraction =
    ap (λ n. some (finite n (length fraction)))
      (scale_one (signed minus (number_from (number_from 0 (c ∷ s)) fraction)))

read_unsigned-digits :
    (minus : Bool) (c : ℕ) (s fraction : Text)
    → all_digits (c ∷ s) ≡ true
    → all_digits fraction ≡ true
    → read_unsigned minus (c ∷ s ++ point fraction) ≡ some (figure_value minus (c ∷ s) fraction)
unfolding read_unsigned
read_unsigned-digits minus c s fraction hw hf =
    let text : Text = c ∷ (s ++ point fraction) in
    let digit_first : is_digit c ≡ true = first_digit c s hw in
    let plain : Plain text =
      All-append (λ x. is_plain x ≡ true) (c ∷ s) (point fraction) (Plain-all_digits (c ∷ s) hw)
        (Plain-point fraction hf) in
    rw (lower-Plain text plain) (
      rw (is_infinity-digit c (s ++ point fraction) digit_first) (
        rw (is_nan-digit c (s ++ point fraction) digit_first) (
          rw (span_digits-point (c ∷ s) fraction hw)
            (rw (span_fraction-point fraction hf) (finish minus c s fraction)))))

-- A figure in its plain form is read as the number that its digits stand for.
pub read_decimal-figure_text :
    (minus : Bool) (c : ℕ) (s fraction : Text)
    → all_digits (c ∷ s) ≡ true
    → all_digits fraction ≡ true
    → read_decimal (figure_text minus (c ∷ s) fraction) ≡ some (figure_value minus (c ∷ s) fraction)
unfolding read_decimal
read_decimal-figure_text minus c s fraction hw hf =
    let text = figure_text minus (c ∷ s) fraction in
    let plain = Plain-figure_text minus (c ∷ s) fraction hw hf in
    rw (strip-Plain text plain) (
      rw (no_underscores-Plain text plain) (
        rw (sign_of-with_sign minus c (s ++ point fraction) (first_digit c s hw))
          (read_unsigned-digits minus c s fraction hw hf)))

-- No space stands around a figure in its plain form.
pub strip-figure_text :
    (minus : Bool) (whole fraction : Text)
    → all_digits whole ≡ true
    → all_digits fraction ≡ true
    → strip (figure_text minus whole fraction) ≡ figure_text minus whole fraction
strip-figure_text minus whole fraction hw hf =
    strip-Plain (figure_text minus whole fraction) (Plain-figure_text minus whole fraction hw hf)
