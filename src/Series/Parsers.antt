-- ===== src/Series/Parsers.antt =====
-- mios/series/parsers.py: a payload into the points of one series.
pub mod Treasury
pub mod Rows
pub mod Written
pub mod Named
pub mod Raises
pub mod Answers
pub mod LongRow
use invest.Base.{
  ◌*◌, ℕ, Bool, true, false, ◌||◌, Option, none, some, String, List, [], ◌∷◌, if◌then◌else◌,
}
use invest.Common.Dates.{Date, days_before}
use invest.Common.Decimal.{Decimal}
use invest.Common.Json.{
  Json, LoadedJson, json_value, json_error, json_crash, text, array, object, Fields, elements,
  get_field, has_field, is_text, text_of,
}
use invest.Common.Numerals.{read_decimal, iso_date}
use invest.Common.Text.{Text, is_literal, strip, split}
use invest.Series.Repo.{Point}

-- `utc_midnight`, in microseconds since the start of the year 1
unfoldable pub utc_midnight : Date → ℕ
unfolding days_before
utc_midnight day = days_before day * 86400000000

-- Why a `ParseError` is raised.
pub data Refusal : Type 0 where
  not_json not_an_object provider_error no_list : Refusal
  malformed_row : Json → Refusal
  not_a_date not_a_number : Text → Refusal
  no_header no_column no_date_column no_data_rows unknown_parser : Refusal

-- What a parser's call gives or raises; `crashed` is any exception that is no `ParseError`.
pub data Reading {ℓ} (A : Type ℓ) : Type ℓ where
  read : A → Reading A
  parse_error : Refusal → Reading A
  crashed : Reading A

infixl 10 ◌>>=◌
abbrev pub ◌>>=◌ {ℓ κ} : {A : Type ℓ} {B : Type κ} → Reading A → (A → Reading B) → Reading B
read a >>= f = f a
parse_error r >>= f = parse_error r
crashed >>= f = crashed

abbrev pub or_refuse {ℓ} : {A : Type ℓ} → Refusal → Option A → Reading A
or_refuse r none = parse_error r
or_refuse r (some a) = read a

-- `_decimal`
unfoldable pub decimal : Text → Reading Decimal
decimal s = or_refuse (not_a_number s) (read_decimal s)

-- `None if missing else _decimal(raw)`
unfoldable pub value_unless : Bool → Text → Reading (Option Decimal)
unfolding decimal
value_unless missing raw =
    if missing then read none else (do some_value ← decimal raw; read (some some_value))

-- The loop over the rows: the first that is refused ends it.
unfoldable pub read_rows {ℓ} : {A : Type ℓ} → (A → Reading Point) → List A → Reading (List Point)
read_rows row [] = read []
read_rows row (r ∷ rows) = do p ← row r; ps ← read_rows row rows; read (p ∷ ps)

-- `_load_json`, which takes JSONDecodeError alone, and the test that the document is an object.
unfoldable pub load_object : LoadedJson → Reading Fields
load_object json_error = parse_error not_json
load_object json_crash = crashed
load_object (json_value (object fields)) = read fields
load_object (json_value j) = parse_error not_an_object

abbrev pub list_of : Option Json → Reading (List Json)
list_of (some (array js)) = read (elements js)
list_of j = parse_error no_list

-- What FRED and ALFRED answer with: an error, or the rows.
unfoldable pub observations : Fields → Reading (List Json)
observations fields =
    if has_field "error_message" fields
    then parse_error provider_error
    else list_of (get_field "observations" fields)

unfoldable pub twelvedata_values : Fields → Reading (List Json)
twelvedata_values fields =
    if is_text "error" (get_field "status" fields) || has_field "code" fields
    then parse_error provider_error
    else list_of (get_field "values" fields)

-- `raw in (".", "")`
abbrev pub is_fred_missing : Text → Bool
is_fred_missing raw = is_literal "." raw || is_literal "" raw

abbrev pub fred_value : Text → Reading (Option Decimal)
fred_value raw = value_unless (is_fred_missing raw) raw

-- `stamp.split(" ")[0]`
abbrev pub first_word : Text → Text
first_word stamp = elim (split b' ' stamp) [ [] ↦ [] | word ∷ words ↦ word ]

-- `week_date` is the reader of dates with a week, `repr` is `str` of a list or a dict.
module _ (week_date : Text → Option Date) where
  -- `_iso_date`
  unfoldable pub iso_date_of : Text → Reading Date
  iso_date_of s = or_refuse (not_a_date s) (iso_date week_date s)

module _ (repr : Json → Text) (week_date : Text → Option Date) where
  abbrev pub fred_point : Json → Option Json → Option Json → Reading Point
  fred_point row (some date) (some value) = do
    observation_date ← iso_date_of week_date (text_of repr date)
    some_value ← fred_value (strip (text_of repr value))
    read (observation_date, some_value, none)
  fred_point row date value = parse_error (malformed_row row)

  unfoldable pub fred_row : Json → Reading Point
  fred_row (object fields) =
      fred_point (object fields) (get_field "date" fields) (get_field "value" fields)
  fred_row row = parse_error (malformed_row row)

  abbrev pub twelvedata_point : Json → Option Json → Option Json → Reading Point
  twelvedata_point row (some stamp) (some close) = do
    observation_date ← iso_date_of week_date (first_word (text_of repr stamp))
    let raw = strip (text_of repr close)
    some_value ← value_unless (is_literal "" raw) raw
    read (observation_date, some_value, none)
  twelvedata_point row stamp close = parse_error (malformed_row row)

  unfoldable pub twelvedata_row : Json → Reading Point
  twelvedata_row (object fields) =
      twelvedata_point (object fields) (get_field "datetime" fields) (get_field "close" fields)
  twelvedata_row row = parse_error (malformed_row row)

  abbrev pub alfred_point : Json → Option Json → Option Json → Option Json → Reading Point
  alfred_point row (some date) (some value) (some realtime_start) = do
    observation_date ← iso_date_of week_date (text_of repr date)
    vintage ← iso_date_of week_date (text_of repr realtime_start)
    some_value ← fred_value (strip (text_of repr value))
    read (observation_date, some_value, some (utc_midnight vintage))
  alfred_point row date value realtime_start = parse_error (malformed_row row)

  unfoldable pub alfred_row : Json → Reading Point
  alfred_row (object fields) =
      alfred_point (object fields) (get_field "date" fields) (get_field "value" fields)
        (get_field "realtime_start" fields)
  alfred_row row = parse_error (malformed_row row)

  -- `json.loads`
  module _ (loads : String → LoadedJson) where
    unfoldable pub fred_json : String → Reading (List Point)
    fred_json payload = do
      document ← load_object (loads payload)
      rows ← observations document
      read_rows fred_row rows

    unfoldable pub twelvedata_json : String → Reading (List Point)
    twelvedata_json payload = do
      document ← load_object (loads payload)
      rows ← twelvedata_values document
      read_rows twelvedata_row rows

    unfoldable pub alfred_json : String → Reading (List Point)
    alfred_json payload = do
      document ← load_object (loads payload)
      rows ← observations document
      read_rows alfred_row rows
