-- ===== src/Common/Ids.antt =====
-- mios/common/ids.py: the conventions of identifiers, over texts.
pub mod Slugs
pub mod Valid
use invest.Base.{
  ℕ, zero, suc, ◌≡◌, Bool, true, false, not, ◌&&◌, ◌||◌, Option, none, some, String, List, [], ◌∷◌,
  ◌++◌, leb, ◌==◌, is_some, if◌then◌else◌, codes,
}
use invest.Common.Dates.{Date}
use invest.Common.Numerals.{◌>>=◌, take_digits, iso_date}
use invest.Common.Text.{Text, same_text, is_digit, is_empty, lower, split}

pub data IdKind : Type 0 where
  raw_item evidence agent_run source entity chain series event release forecast : IdKind
  external_forecast score_card : IdKind

-- `kind.value`
abbrev pub value_of : IdKind → String
value_of raw_item = "raw"
value_of evidence = "evd"
value_of agent_run = "run"
value_of source = "src"
value_of entity = "ent"
value_of chain = "chain"
value_of series = "ser"
value_of event = "evt"
value_of release = "rel"
value_of forecast = "fc"
value_of external_forecast = "xf"
value_of score_card = "sc"

pub data Family : Type 0 where
  opaque slug dated : Family

-- OPAQUE_KINDS, SLUG_KINDS and DATED_KINDS
abbrev pub family : IdKind → Family
family raw_item = opaque
family evidence = opaque
family agent_run = opaque
family source = slug
family entity = slug
family chain = slug
family series = slug
family event = dated
family release = dated
family forecast = dated
family external_forecast = dated
family score_card = dated

-- `kind.value + "_"`
abbrev pub prefix_of : IdKind → Text
prefix_of kind = codes (value_of kind) ++ b'_' ∷ []

abbrev pub is_letter : ℕ → Bool
is_letter c = leb b'a' c && leb c b'z'

-- [a-z0-9]
abbrev pub is_slug_char : ℕ → Bool
is_slug_char c = is_letter c || is_digit c

-- What `re.sub(r"[^a-z0-9]+", separator, s)` gives; `after` says that the run before is replaced.
unfoldable pub collapse : ℕ → Bool → Text → Text
collapse separator after [] = []
collapse separator after (c ∷ s) =
    let kept = collapse separator false s in
    let dropped = collapse separator true s in
    if is_slug_char c then c ∷ kept else if after then dropped else separator ∷ dropped

unfoldable pub lstrip_char : ℕ → Text → Text
lstrip_char separator [] = []
lstrip_char separator (c ∷ s) =
    let rest = lstrip_char separator s in if c == separator then rest else c ∷ s

abbrev pub keep_char : ℕ → ℕ → Text → Text
keep_char separator c [] = if c == separator then [] else c ∷ []
keep_char separator c (d ∷ s) = c ∷ d ∷ s

unfoldable pub rstrip_char : ℕ → Text → Text
rstrip_char separator [] = []
rstrip_char separator (c ∷ s) = keep_char separator c (rstrip_char separator s)

abbrev pub not_empty : Text → Option Text
not_empty [] = none
not_empty (c ∷ s) = some (c ∷ s)

-- `^[a-z0-9]+(?:-[a-z0-9]+)*$`, with its separator; `$` also stands before a newline that ends the
-- text. `after` says that a character of [a-z0-9] stands before.
unfoldable pub slug_from : ℕ → Bool → Text → Bool
slug_from separator after [] = after
slug_from separator after (c ∷ s) =
    let next = slug_from separator true s in
    let gap = slug_from separator false s in
    if is_slug_char c
    then next
    else if after && (c == separator)
    then gap
    else after && ((c == b'\n') && is_empty s)

abbrev pub is_slug : ℕ → Text → Bool
is_slug separator s = slug_from separator false s

-- `[a-z]+_`, and what follows it.
unfoldable pub after_letters : Bool → Text → Option Text
after_letters some_letter [] = none
after_letters some_letter (c ∷ s) =
    let more = after_letters true s in
    if is_letter c then more else if some_letter && (c == b'_') then some s else none

-- `[0-9a-f]{17}$`
abbrev pub is_hex : ℕ → Bool
is_hex c = is_digit c || (leb b'a' c && leb c b'f')

unfoldable pub hex_digits : ℕ → Text → Bool
hex_digits zero [] = true
hex_digits zero (c ∷ s) = (c == b'\n') && is_empty s
hex_digits (suc n) [] = false
hex_digits (suc n) (c ∷ s) = is_hex c && hex_digits n s

abbrev pub and_then : Option Text → (Text → Bool) → Bool
and_then none p = false
and_then (some s) p = p s

-- `_OPAQUE_RE`
unfoldable pub is_opaque : Text → Bool
unfolding after_letters hex_digits
is_opaque value = and_then (after_letters false value) (hex_digits 17)

abbrev pub expect : ℕ → Text → Option Text
expect c [] = none
expect c (d ∷ s) = if d == c then some s else none

-- What follows `\d{4}-\d{2}-\d{2}_`. Where `\d` takes a digit that is not ASCII, the date that is
-- read after it refuses.
unfoldable pub after_day : Text → Option Text
after_day s = do
  (_, s) ← take_digits 4 0 s
  s ← expect b'-' s
  (_, s) ← take_digits 2 0 s
  s ← expect b'-' s
  (_, s) ← take_digits 2 0 s
  expect b'_' s

-- `_DATED_RE`
unfoldable pub is_dated : Text → Bool
is_dated value = and_then (after_letters false value >>= after_day) (is_slug b'-')

-- `value.startswith(prefix)`, and `value[len(prefix):]`
unfoldable pub remove_prefix : Text → Text → Option Text
remove_prefix [] s = some s
remove_prefix (c ∷ p) [] = none
remove_prefix (c ∷ p) (d ∷ s) = let rest = remove_prefix p s in if c == d then rest else none

-- The reader of dates with a week, and NFKD with what is no ASCII dropped.
module _ (week_date : Text → Option Date) (fold_ascii : Text → Text) where
  abbrev pub is_iso_date : Text → Bool
  is_iso_date s = is_some (iso_date week_date s)

  -- `slugify`; `none` is an InvalidIdError.
  unfoldable pub slugify : ℕ → Text → Option Text
  slugify separator s = not_empty (
      rstrip_char separator
        (lstrip_char separator (collapse separator false (lower (fold_ascii s)))))

  abbrev pub with_prefix : IdKind → Text → Text
  with_prefix kind s = prefix_of kind ++ s

  -- `new_id`, of the clock's milliseconds and the random digits in hexadecimal.
  unfoldable pub new_id : Text → Text → IdKind → Option Text
  new_id millis random kind = elim (family kind) [
    | opaque ↦ some (with_prefix kind (millis ++ random))
    | _ ↦ none
  ]

  unfoldable pub make_slug_id : IdKind → Text → Option Text
  make_slug_id kind name = elim (family kind) [
    | slug ↦ do
      s ← if is_slug b'_' name then some name else slugify b'_' name
      some (with_prefix kind s)
    | _ ↦ none
  ]

  unfoldable pub make_dated_id : IdKind → Text → Text → Option Text
  make_dated_id kind day name = elim (family kind) [
    | dated ↦
        if is_iso_date day
        then (do
          s ← if is_slug b'-' name then some name else slugify b'-' name
          some (with_prefix kind (day ++ b'_' ∷ s)))
        else none
    | _ ↦ none
  ]

  -- `make_event_id`
  unfoldable pub make_event_id : Text → Text → Option Text
  unfolding make_dated_id
  make_event_id day name = make_dated_id event day name

  abbrev pub first_part : List Text → Text
  first_part [] = []
  first_part (part ∷ parts) = part

  -- What `validate_id` tests once the prefix is there.
  abbrev pub is_valid_rest : Family → Text → Text → Bool
  is_valid_rest opaque value rest = is_opaque value
  is_valid_rest slug value rest = is_slug b'_' rest
  is_valid_rest dated value rest = is_dated value && is_iso_date (first_part (split b'_' rest))

  -- `validate_id`, which returns the value or raises InvalidIdError.
  unfoldable pub validate_id : Text → IdKind → Option Text
  validate_id value kind = do
    rest ← remove_prefix (prefix_of kind) value
    if is_valid_rest (family kind) value rest then some value else none
