-- ===== src/Series/Parsers/Written.antt =====
-- A document of FRED or ALFRED as the publisher writes it: ISO dates, plain figures, "." for none.
use invest.Base.{
  ℕ, ◌≡◌, refl, Bool, true, false, Option, none, some, String, List, [], ◌∷◌, map, All, arith,
  codes,
}
use invest.Common.Dates.{Date, date, is_date}
use invest.Common.Decimal.{Decimal}
use invest.Common.Json.{
  LoadedJson, json_value, Json, text, array, object, Items, end_array, item, end_object, field,
  elements, get_field,
}
use invest.Common.Numerals.{all_digits}
use invest.Common.Numerals.Laws.{iso_text, iso_date-iso_text}
use invest.Common.Numerals.Laws.Figures.{
  figure_text, figure_value, read_decimal-figure_text, strip-figure_text,
}
use invest.Common.Text.{Text, same_text, strip}
use invest.Series.Repo.{Point}
use invest.Series.Parsers.{
  utc_midnight, Reading, read, read_rows, load_object, observations, fred_json, alfred_json,
  fred_row, alfred_row, is_fred_missing,
}
use invest.Series.Parsers.Rows.{fred, alfred, HasValue, reader_of_IsPoint}

-- A day, by year, month and day.
pub record Day : Type 0 where
  pub year : ℕ
  pub month : ℕ
  pub day : ℕ

abbrev pub IsDay : Day → Type 0
IsDay d = is_date d.year d.month d.day ≡ true

abbrev pub day_text : Day → Text
day_text d = iso_text d.year d.month d.day

abbrev pub day_date : Day → Date
day_date d = date d.year d.month d.day

-- A figure: its sign, its digits before the point, the first by itself, and those after.
pub record Figure : Type 0 where
  pub minus : Bool
  pub first : ℕ
  pub whole : Text
  pub fraction : Text

-- One published row, with the day from which it was the published one.
pub record Published : Type 0 where
  pub period : Day
  pub since : Day
  pub figure : Option Figure

abbrev pub value_text : Option Figure → Text
value_text none = codes "."
value_text (some f) = figure_text f.minus (f.first ∷ f.whole) f.fraction

abbrev pub value_of : Option Figure → Option Decimal
value_of none = none
value_of (some f) = some (figure_value f.minus (f.first ∷ f.whole) f.fraction)

abbrev pub IsFigure : Option Figure → Type 0
IsFigure none = Unit
IsFigure (some f) = (all_digits (f.first ∷ f.whole) ≡ true) × (all_digits f.fraction ≡ true)

abbrev pub IsPublished : Published → Type 0
IsPublished r = IsDay r.period × IsDay r.since × IsFigure r.figure

abbrev pub written_row : Published → Json
written_row r = object (
    field "realtime_start" (text (day_text r.since)) (
      field "date" (text (day_text r.period))
        (field "value" (text (value_text r.figure)) end_object)))

abbrev pub written_rows : List Published → Items
written_rows [] = end_array
written_rows (r ∷ rows) = item (written_row r) (written_rows rows)

abbrev pub written : List Published → Json
written rows = object (field "observations" (array (written_rows rows)) end_object)

figure_text-not_missing :
    (minus : Bool) (c : ℕ) (s fraction : Text)
    → all_digits (c ∷ s) ≡ true
    → is_fred_missing (figure_text minus (c ∷ s) fraction) ≡ false
unfolding same_text all_digits
figure_text-not_missing true c s fraction h = refl
figure_text-not_missing false c s fraction h = ground arith

module _ (repr : Json → Text) (week_date : Text → Option Date) where
  abbrev pub fred_written : Published → Point
  fred_written r = (day_date r.period, value_of r.figure, none)

  abbrev pub alfred_written : Published → Point
  alfred_written r = (day_date r.period, value_of r.figure, some (utc_midnight (day_date r.since)))

  -- A written value is read back.
  figure-HasValue :
      (f : Option Figure) → IsFigure f → HasValue repr week_date (text (value_text f)) (value_of f)
  unfolding strip same_text
  figure-HasValue none h = refl
  figure-HasValue (some f) (whole, fraction) =
      rw (strip-figure_text f.minus (f.first ∷ f.whole) f.fraction whole fraction) (
        figure_text-not_missing f.minus f.first f.whole f.fraction whole,
        read_decimal-figure_text f.minus f.first f.whole f.fraction whole fraction,
      )

  fred_row-written :
      (r : Published)
      → IsPublished r
      → fred_row repr week_date (written_row r) ≡ read (fred_written r)
  unfolding get_field
  fred_row-written r (period, since, figure) =
      reader_of_IsPoint repr week_date fred (written_row r) (fred_written r) (
        text (day_text r.period),
        text (value_text r.figure),
        refl,
        refl,
        iso_date-iso_text week_date r.period.year r.period.month r.period.day period,
        figure-HasValue r.figure figure,
        refl,
      )

  alfred_row-written :
      (r : Published)
      → IsPublished r
      → alfred_row repr week_date (written_row r) ≡ read (alfred_written r)
  unfolding get_field
  alfred_row-written r (period, since, figure) =
      reader_of_IsPoint repr week_date alfred (written_row r) (alfred_written r) (
        text (day_text r.period),
        text (value_text r.figure),
        text (day_text r.since),
        day_date r.since,
        refl,
        refl,
        refl,
        iso_date-iso_text week_date r.period.year r.period.month r.period.day period,
        iso_date-iso_text week_date r.since.year r.since.month r.since.day since,
        figure-HasValue r.figure figure,
        refl,
      )

  read_rows-written :
      (row : Json → Reading Point) (point : Published → Point)
      → ((r : Published) → IsPublished r → row (written_row r) ≡ read (point r))
      → (rows : List Published) → All IsPublished rows
      → read_rows row (elements (written_rows rows)) ≡ read (map point rows)
  unfolding read_rows elements
  read_rows-written row point one [] h = refl
  read_rows-written row point one (r ∷ rows) h =
      rw (one r h.0, read_rows-written row point one rows h.1)

  -- Where a payload is the document of published rows, that is, of ISO dates and of figures in their
  -- plain form or ".", the FRED reader gives exactly their periods and values, in order and with no
  -- vintage, and the ALFRED reader gives each with the start of the day since which it was published
  -- as its vintage.
  pub fred_json-written :
      (loads : String → LoadedJson) (payload : String) (rows : List Published)
      → loads payload ≡ json_value (written rows)
      → All IsPublished rows
      → (fred_json repr week_date loads payload ≡ read (map fred_written rows))
        × (alfred_json repr week_date loads payload ≡ read (map alfred_written rows))
  unfolding fred_json alfred_json load_object observations get_field
  fred_json-written loads payload rows e h = (
    rw e (read_rows-written _ fred_written fred_row-written rows h),
    rw e (read_rows-written _ alfred_written alfred_row-written rows h),
  )
