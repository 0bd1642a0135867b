-- ===== src/Tests/Ids.antt =====
-- Runs of mios/common/ids.py and of the reader of release dates of mios/series/calendar.py.
use invest.Base.{
  ◌≡◌, refl, true, false, Option, none, some, String, [], ◌∷◌, codes, if◌then◌else◌, str_eq, ◌++◌,
}
use invest.Common.Dates.{Date, is_date, days_in_month, is_leap}
use invest.Common.Ids.{
  event, score_card, series, raw_item, slugify, collapse, lstrip_char, rstrip_char, is_slug,
  slug_from, make_slug_id, make_dated_id, validate_id, after_letters, remove_prefix, is_opaque,
  hex_digits,
}
use invest.Common.Ids.Slugs.{slugify-is_slug}
use invest.Common.Ids.Valid.{
  make_slug_id-validate_id, make_dated_id-validate_id, make_dated_id_compact,
}
use invest.Common.Json.{
  LoadedJson, json_value, Json, text, number, null, array, object, end_array, item, end_object,
  field, get_field, elements,
}
use invest.Common.Numerals.{iso_date, month_and_day, take_digits, byte_length}
use invest.Common.Numerals.Laws.{compact_text}
use invest.Common.Text.{Text, lower}
use invest.Series.Calendar.{release_dates}
use invest.Series.Calendar.Reader.{fred_release_dates, IsReadOf, fred_release_dates-IsReadOf}

abbrev no_week : Text → Option Date
no_week s = none

abbrev same : Text → Text
same s = s

slugify_runs :
    (slugify no_week same b'-' (codes "  US CPI: August! ") ≡ some (codes "us-cpi-august"))
    × (slugify no_week same b'_' (codes "--") ≡ none)
unfolding slugify collapse lstrip_char rstrip_char lower
slugify_runs = (refl, refl)

slugify-is_slug_example : is_slug b'-' (codes "us-cpi") ≡ true
slugify-is_slug_example =
    slugify-is_slug no_week same b'-' (codes "US CPI") (codes "us-cpi") refl
      (unfold slugify collapse lstrip_char rstrip_char lower in refl)

make_slug_id-validate_id_run :
    validate_id no_week same (codes "ser_us_cpi") series ≡ some (codes "ser_us_cpi")
make_slug_id-validate_id_run =
    make_slug_id-validate_id no_week same series (codes "US CPI") (codes "ser_us_cpi")
      (unfold make_slug_id slug_from slugify collapse lstrip_char rstrip_char lower in refl)

make_dated_id-validate_id_example :
    validate_id no_week same (codes "evt_2026-09-11_us-cpi") event
    ≡ some (codes "evt_2026-09-11_us-cpi")
make_dated_id-validate_id_example =
    make_dated_id-validate_id no_week same event 2026 9 11 (codes "us-cpi")
      (codes "evt_2026-09-11_us-cpi") (unfold is_date days_in_month is_leap in refl)
      (unfold make_dated_id slug_from iso_date month_and_day take_digits byte_length is_date
          days_in_month in
        refl)

make_dated_id_compact_run :
    (id : Text) × (make_dated_id no_week same score_card (compact_text 2026 9 11) (codes "gold")
      ≡ some id)
    × (validate_id no_week same id score_card ≡ none)
make_dated_id_compact_run =
    make_dated_id_compact no_week same score_card 2026 9 11 (codes "gold") refl
      (unfold is_date days_in_month is_leap in refl) (unfold slug_from in refl)

-- A newline at the end is let through.
newline_passes :
    validate_id no_week same (codes "ser_us_cpi" ++ b'\n' ∷ []) series
    ≡ some (codes "ser_us_cpi" ++ b'\n' ∷ [])
unfolding validate_id remove_prefix slug_from
newline_passes = refl

opaque_passes :
    validate_id no_week same (codes "raw_0190af3c21b4d5e6f") raw_item
    ≡ some (codes "raw_0190af3c21b4d5e6f")
unfolding validate_id remove_prefix is_opaque after_letters hex_digits
opaque_passes = refl

abbrev name_of : Text → String
name_of t = "Consumer Price Index"

abbrev cpi_row : Json
cpi_row = object (
    field "release_id" (number false (codes "10")) (
      field "release_name" (text (codes "Consumer Price Index"))
        (field "date" (text (codes "2026-09-11")) end_object)))

abbrev loads : String → LoadedJson
loads payload =
    if str_eq payload "error"
    then json_value (
        object (
          field "error_message" (text (codes "bad key"))
            (field "release_dates" (array end_array) end_object)))
    else json_value
        (object (field "release_dates" (array (item null (item cpi_row end_array))) end_object))

abbrev no_repr : Json → Text
no_repr j = []

fred_release_dates-IsReadOf_example :
    IsReadOf no_repr no_week name_of
      (loads "dates")
      (fred_release_dates no_repr no_week name_of loads "dates")
fred_release_dates-IsReadOf_example =
    fred_release_dates-IsReadOf no_repr no_week name_of loads "dates"

release_dates_read :
    fred_release_dates no_repr no_week name_of loads "dates"
    ≡ release_dates (
        record {
          provider_release_id = "Consumer Price Index";
          release_name = "Consumer Price Index";
          release_date = 20260911;
        }
        ∷ [])
unfolding fred_release_dates get_field elements iso_date byte_length take_digits month_and_day
    is_date
release_dates_read = refl
