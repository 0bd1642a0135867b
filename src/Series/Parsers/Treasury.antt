-- ===== src/Series/Parsers/Treasury.antt =====
-- `treasury_csv` of mios/series/parsers.py over the rows of `csv.reader`, with `csv.DictReader`, and
-- the table PARSERS.
use invest.Base.{
  Bool, ◌||◌, Option, none, some, String, List, [], ◌∷◌, map, any, if◌then◌else◌, codes,
}
use invest.Base.Int.{ℤ, pos}
use invest.Common.Dates.{Date, make_date}
use invest.Common.Numerals.{read_int}
use invest.Common.Text.{Text, same_text, is_literal, is_empty, strip, lower, split}
use invest.Series.Repo.{Point, SeriesSpec}
use invest.Series.Parsers.{
  not_a_date, no_header, no_column, no_date_column, no_data_rows, Reading, read, parse_error,
  crashed, ◌>>=◌, value_unless,
}

-- A row of `DictReader`: the header's cells, a missing one being None, and the list under the key
-- None of those that go beyond the header.
pub record CsvRow : Type 0 where
  pub cells : List (Text × Option Text)
  pub extra : List Text

-- `d[key] = value`
unfoldable pub put_cell {ℓ} : {V : Type ℓ} → Text → V → List (Text × V) → List (Text × V)
put_cell key value [] = (key, value) ∷ []
put_cell key value ((k, v) ∷ row) =
    if same_text k key then (k, value) ∷ row else (k, v) ∷ put_cell key value row

unfoldable pub get_cell {ℓ} : {V : Type ℓ} → Text → List (Text × V) → Option V
get_cell key [] = none
get_cell key ((k, v) ∷ row) = if same_text k key then some v else get_cell key row

-- `dict(zip(fieldnames, row))` with what is missing and what is too much.
unfoldable pub row_from : List (Text × Option Text) → List Text → List Text → CsvRow
unfolding put_cell
row_from cells [] extra = record { cells = cells; extra = extra }
row_from cells (name ∷ names) [] = row_from (put_cell name none cells) names []
row_from cells (name ∷ names) (cell ∷ row) = row_from (put_cell name (some cell) cells) names row

-- `DictReader.__next__` passes over the empty rows.
unfoldable pub dict_rows : List Text → List (List Text) → List CsvRow
unfolding row_from
dict_rows fieldnames [] = []
dict_rows fieldnames ([] ∷ rows) = dict_rows fieldnames rows
dict_rows fieldnames ((cell ∷ row) ∷ rows) =
    row_from [] fieldnames (cell ∷ row) ∷ dict_rows fieldnames rows

-- `(v or "").strip()`
abbrev pub strip_or_empty : Option Text → Text
strip_or_empty none = []
strip_or_empty (some s) = strip s

unfoldable pub clean_cells : List (Text × Text) → List (Text × Option Text) → List (Text × Text)
unfolding put_cell
clean_cells cleaned [] = cleaned
clean_cells cleaned ((k, v) ∷ cells) =
    clean_cells (put_cell (strip k) (strip_or_empty v) cleaned) cells

-- `cleaned`: a list has no `strip`.
abbrev pub cleaned_of : CsvRow → Reading (List (Text × Text))
cleaned_of row = elim row.extra [ [] ↦ read (clean_cells [] row.cells) | cell ∷ more ↦ crashed ]

-- `cleaned.get(header, "")`
abbrev pub cell_or_empty : Option Text → Text
cell_or_empty none = []
cell_or_empty (some s) = s

-- `date(year, month, day)` of what `int` read.
abbrev pub date_of_ints : Option ℤ → Option ℤ → Option ℤ → Option Date
date_of_ints (some (pos month)) (some (pos day)) (some (pos year)) = make_date year month day
date_of_ints month day year = none

abbrev pub or_not_a_date : Text → Option Date → Reading Date
or_not_a_date s none = parse_error (not_a_date s)
or_not_a_date s (some d) = read d

-- `_us_date`
unfoldable pub us_date_parts : Text → List Text → Reading Date
us_date_parts s (month ∷ day ∷ year ∷ []) =
    or_not_a_date s (date_of_ints (read_int month) (read_int day) (read_int year))
us_date_parts s parts = parse_error (not_a_date s)

unfoldable pub us_date : Text → Reading Date
unfolding us_date_parts
us_date s = us_date_parts s (split b'/' s)

abbrev pub is_unpublished : Text → Bool
is_unpublished raw = is_literal "" raw || is_literal "N/A" raw

-- The body of the loop for one row, from its cells on; a row with no date gives no point.
abbrev pub treasury_point : Text → Text → Reading (Option Point)
treasury_point raw_date raw_value = if is_empty raw_date then read none else (do
  observation_date ← us_date raw_date
  some_value ← value_unless (is_unpublished raw_value) raw_value
  read (some (observation_date, some_value, none)))

unfoldable pub treasury_row : Text → Text → CsvRow → Reading (Option Point)
unfolding us_date value_unless get_cell clean_cells
treasury_row date_header column row = do
  cleaned ← cleaned_of row
  treasury_point (cell_or_empty (get_cell date_header cleaned))
      (cell_or_empty (get_cell column cleaned))

abbrev pub with_point : Option Point → List Point → List Point
with_point none points = points
with_point (some p) points = p ∷ points

unfoldable pub treasury_rows : Text → Text → List CsvRow → Reading (List Point)
unfolding treasury_row
treasury_rows date_header column [] = read []
treasury_rows date_header column (row ∷ rows) = do
  p ← treasury_row date_header column row
  points ← treasury_rows date_header column rows
  read (with_point p points)

-- `next((h for h in headers if h.lower() == "date"), None)`
unfoldable pub date_header_of : List Text → Option Text
date_header_of [] = none
date_header_of (h ∷ headers) =
    if is_literal "date" (lower h) then some h else date_header_of headers

abbrev pub some_points : List Point → Reading (List Point)
some_points [] = parse_error no_data_rows
some_points (p ∷ points) = read (p ∷ points)

abbrev pub rows_with_date : Text → Option Text → List CsvRow → Reading (List Point)
rows_with_date column none rows = parse_error no_date_column
rows_with_date column (some date_header) rows = do
  points ← treasury_rows date_header column rows
  some_points points

-- The rows of `csv.reader`.
unfoldable pub treasury_table : Text → List (List Text) → Reading (List Point)
unfolding treasury_rows date_header_of dict_rows
treasury_table column [] = parse_error no_header
treasury_table column (fieldnames ∷ rows) =
    let headers = map strip fieldnames in
    if any (same_text column) headers
    then rows_with_date column (date_header_of headers) (dict_rows fieldnames rows)
    else parse_error no_column

module _ (csv_rows : String → List (List Text)) where
  unfoldable pub treasury_csv : String → SeriesSpec → Reading (List Point)
  unfolding treasury_table
  treasury_csv payload spec = treasury_table (codes spec.provider_code) (csv_rows payload)
