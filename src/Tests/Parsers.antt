-- ===== src/Tests/Parsers.antt =====
-- Runs of mios/series/parsers.py.
use invest.Base.{
  ◌≡◌, refl, false, Option, none, some, String, List, [], ◌∷◌, arith, str_eq, codes, if◌then◌else◌,
  map, length, IsIn, ◌<◌, ◌++◌,
}
use invest.Base.Int.{pos, negsuc}
use invest.Common.Dates.{Date, is_date, days_in_month, is_leap}
use invest.Common.Decimal.{finite, nan, minus_infinity}
use invest.Common.Json.{
  LoadedJson, json_value, json_error, Json, number, array, object, end_array, end_object, field,
  get_field,
}
use invest.Common.Numerals.{
  read_int, read_decimal, read_unsigned, sign_of, is_nan, all_digits, number_from, span_digits,
  span_fraction, read_exponent, month_and_day, take_digits, byte_length, grouped_from, iso_date,
}
use invest.Common.Text.{Text, strip, split, lower, same_text}
use invest.Series.Parsers.{
  utc_midnight, read, parse_error, crashed, not_a_date, provider_error, fred_json, alfred_json,
  twelvedata_json, load_object, twelvedata_values,
}
use invest.Series.Parsers.Answers.{Answers, parser, parser-Answers}
use invest.Series.Parsers.LongRow.{treasury_table-crashed, treasury_table_long_row}
use invest.Series.Parsers.Rows.{twelvedata}
use invest.Series.Parsers.Treasury.{
  us_date, us_date_parts, treasury_table, treasury_row, dict_rows, date_header_of,
}
use invest.Series.Parsers.Written.{
  Published, written, fred_written, alfred_written, fred_json-written,
}

abbrev no_week : Text → Option Date
no_week s = none

abbrev no_repr : Json → Text
no_repr j = []

decimal_runs :
    (read_decimal (codes " +3_25.10 ") ≡ some (finite (pos 32510) 2))
    × (read_decimal (codes "-1.5e3") ≡ some (finite (negsuc 14999) 1))
    × (read_decimal (codes "nan") ≡ some nan)
    × (read_decimal (codes "-Infinity") ≡ some minus_infinity)
    × (read_decimal (codes "N/A") ≡ none)
    × (read_decimal (codes ".") ≡ none)
    × (read_decimal (codes "1e-2") ≡ some (finite (pos 1) 2))
unfolding read_decimal read_unsigned strip sign_of lower same_text is_nan all_digits number_from
    span_digits span_fraction read_exponent
decimal_runs = (refl, refl, refl, refl, refl, refl, refl)

-- The eight digits of a date are read whatever follows them in a text of ten bytes.
iso_date_runs :
    (iso_date no_week (codes "2026-08-01") ≡ some 20260801)
    × (iso_date no_week (codes "20260801") ≡ some 20260801)
    × (iso_date no_week (codes "20260801xx") ≡ some 20260801)
    × (iso_date no_week (codes "2026-02-29") ≡ none)
    × (iso_date no_week (codes "2026-0801") ≡ none)
unfolding iso_date month_and_day take_digits byte_length is_date days_in_month is_leap
iso_date_runs = (refl, refl, refl, refl, refl)

us_date_runs :
    (us_date (codes "09/11/2026") ≡ read 20260911)
    × (us_date (codes "9/11/2026") ≡ read 20260911)
    × (us_date (codes "2026-09-11") ≡ parse_error (not_a_date (codes "2026-09-11")))
unfolding us_date us_date_parts split read_int strip sign_of grouped_from is_date days_in_month
    is_leap
us_date_runs = (refl, refl, refl)

-- 325.4 for August 2026, published on the 11th of September, and no figure for July.
abbrev published : List Published
published =
    record {
      period = record { year = 2026; month = 8; day = 1 };
      since = record { year = 2026; month = 9; day = 11 };
      figure =
          some (record { minus = false; first = b'3'; whole = codes "25"; fraction = codes "4" });
    }
    ∷ record {
      period = record { year = 2026; month = 7; day = 1 };
      since = record { year = 2026; month = 8; day = 12 };
      figure = none;
    }
    ∷ []

abbrev loads : String → LoadedJson
loads payload =
    if str_eq payload "fred"
    then json_value (written published)
    else if str_eq payload "error"
    then json_value (
        object
          (field "code" (number false (codes "429")) (field "values" (array end_array) end_object)))
    else json_error

fred_json-written_example :
    (fred_json no_repr no_week loads "fred" ≡ read (map (fred_written no_repr no_week) published))
    × (alfred_json no_repr no_week loads "fred"
        ≡ read (map (alfred_written no_repr no_week) published))
fred_json-written_example = fred_json-written no_repr no_week loads "fred" published refl (
    unfold is_date days_in_month is_leap all_digits in
    ((refl, refl, (refl, refl)), ((refl, refl, tt), tt)))

parser-Answers_example :
    Answers no_repr no_week loads twelvedata
      (loads "error")
      (parser no_repr no_week loads twelvedata "error")
parser-Answers_example = parser-Answers no_repr no_week loads twelvedata "error"

-- An error that arrives with an empty list is no empty result.
twelvedata_error : twelvedata_json no_repr no_week loads "error" ≡ parse_error provider_error
unfolding twelvedata_json load_object twelvedata_values get_field
twelvedata_error = refl

abbrev header : List Text
header = codes "Date" ∷ codes "10 Yr" ∷ []

abbrev good_row : List Text
good_row = codes "09/11/2026" ∷ codes "4.06" ∷ []

abbrev long_row : List Text
long_row = codes "09/10/2026" ∷ codes "4.08" ∷ [] ∷ []

treasury_read :
    treasury_table (codes "10 Yr") (header ∷ good_row ∷ [])
    ≡ read ((20260911, some (finite (pos 406) 2), none) ∷ [])
unfolding treasury_table same_text strip lower split read_int grouped_from sign_of is_date
    read_decimal read_unsigned is_nan span_digits read_exponent span_fraction
treasury_read = refl

treasury_table_long_row_example :
    treasury_table (codes "10 Yr") (header ∷ (good_row ∷ []) ++ long_row ∷ []) ≡ crashed
unfolding dict_rows treasury_row same_text strip lower split read_int grouped_from sign_of is_date
    read_decimal read_unsigned is_nan span_digits read_exponent span_fraction
treasury_table_long_row_example =
    treasury_table_long_row (codes "10 Yr") (codes "Date") header (good_row ∷ []) [] long_row
      (unfold same_text strip in refl) (unfold date_header_of lower same_text strip in refl)
      ((some (20260911, some (finite (pos 406) 2), none), refl), tt) (omega arith)

treasury_table_crashed_run :
    (row : List Text) × IsIn row (long_row ∷ []) × (length header < length row)
unfolding dict_rows
treasury_table_crashed_run = treasury_table-crashed (codes "10 Yr") header (long_row ∷ []) (
    treasury_table_long_row (codes "10 Yr") (codes "Date") header [] [] long_row
      (unfold same_text strip in refl) (unfold date_header_of lower same_text strip in refl) tt
      (omega arith))

-- The starts of two days, one after a leap day.
august_day : utc_midnight 20260812 ≡ 63922089600000000
unfolding utc_midnight
august_day = refl

after_leap_day : utc_midnight 20240301 ≡ 63844848000000000
unfolding utc_midnight
after_leap_day = refl
