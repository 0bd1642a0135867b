-- ===== src/Series/Parsers/LongRow.antt =====
-- `treasury_csv`: a row of the payload that has more cells than the header.
use invest.Base.{
  ◌<◌, ◌≡◌, refl, ◌∙◌, sym, ◌≢◌, ◌⊎◌, inl, inr, Bool, true, Option, none, some, List, [], ◌∷◌, ◌++◌,
  map, any, length, All, IsIn, arith, Bool-cases,
}
use invest.Common.Dates.{Date}
use invest.Common.Text.{Text, same_text, strip}
use invest.Series.Repo.{Point}
use invest.Series.Parsers.{no_column, Reading, read, parse_error, crashed, ◌>>=◌, value_unless}
use invest.Series.Parsers.Treasury.{
  CsvRow, put_cell, row_from, dict_rows, clean_cells, or_not_a_date, is_unpublished, us_date,
  us_date_parts, cleaned_of, treasury_point, treasury_row, treasury_rows, some_points,
  rows_with_date, date_header_of, treasury_table,
}

-- A row has cells beyond the header exactly when it is longer.
row_from-extra :
    (cells : List (Text × Option Text)) (names row : List Text)
    → length names < length row
    → (cell : Text) × (more : List Text) × ((row_from cells names row).extra ≡ cell ∷ more)
unfolding row_from
row_from-extra cells names [] h = absurd (omega arith)
row_from-extra cells [] (cell ∷ row) h = (cell, row, refl)
row_from-extra cells (name ∷ names) (cell ∷ row) h =
    row_from-extra (put_cell name (some cell) cells) names row (omega arith)

row_from-short :
    (cells : List (Text × Option Text)) (names : List Text) → (row_from cells names []).extra ≡ []
unfolding row_from
row_from-short cells [] = refl
row_from-short cells (name ∷ names) = row_from-short (put_cell name none cells) names

row_from-no_extra :
    (cells : List (Text × Option Text)) (names row : List Text)
    → (row_from cells names row).extra ≢ []
    → length names < length row
unfolding row_from
row_from-no_extra cells [] [] h = absurd (h refl)
row_from-no_extra cells [] (cell ∷ row) h = omega arith
row_from-no_extra cells (name ∷ names) [] h =
    absurd (h (row_from-short (put_cell name none cells) names))
row_from-no_extra cells (name ∷ names) (cell ∷ row) h =
    omega (arith, row_from-no_extra (put_cell name (some cell) cells) names row h)

>>=-eq-crashed {ℓ κ} :
    {A : Type ℓ} {B : Type κ} (m : Reading A) (f : A → Reading B)
    → (m >>= f) ≡ crashed
    → (m ≡ crashed) ⊎ ((a : A) × (f a ≡ crashed))
>>=-eq-crashed (read a) f h = inr (a, h)
>>=-eq-crashed (parse_error r) f h = cc
>>=-eq-crashed crashed f h = inl refl

or_not-ne-crashed : (s : Text) (o : Option Date) → or_not_a_date s o ≢ crashed
or_not-ne-crashed s none h = cc
or_not-ne-crashed s (some d) h = cc

us_date_parts-ne-crashed : (s : Text) (parts : List Text) → us_date_parts s parts ≢ crashed
unfolding us_date_parts
us_date_parts-ne-crashed s (month ∷ day ∷ year ∷ []) h = or_not-ne-crashed s _ h
us_date_parts-ne-crashed s _ h = cc

us_date-ne-crashed : (s : Text) → us_date s ≢ crashed
unfolding us_date
us_date-ne-crashed s h = us_date_parts-ne-crashed s _ h

value_unless-ne-crashed : (missing : Bool) (raw : Text) → value_unless missing raw ≢ crashed
unfolding value_unless
value_unless-ne-crashed missing raw h = ground arith

read-ne-crashed {ℓ} : {A : Type ℓ} {a : A} → read a ≢ crashed
read-ne-crashed h = cc

cleaned_short : (row : CsvRow) → row.extra ≡ [] → cleaned_of row ≡ read (clean_cells [] row.cells)
cleaned_short row e = rw e

point-ne-crashed : (raw_date raw_value : Text) → treasury_point raw_date raw_value ≢ crashed
point-ne-crashed [] raw_value h = cc
point-ne-crashed (c ∷ s) raw_value h = elim (>>=-eq-crashed (us_date (c ∷ s)) _ h) [
  | inl e ↦ us_date-ne-crashed (c ∷ s) e
  | inr (d, k) ↦ elim (>>=-eq-crashed (value_unless (is_unpublished raw_value) raw_value) _ k) [
    | inl e ↦ value_unless-ne-crashed (is_unpublished raw_value) raw_value e
    | inr (v, l) ↦ cc
  ]
]

cleaned-crashed : (row : CsvRow) → cleaned_of row ≡ crashed → row.extra ≢ []
cleaned-crashed row h e = read-ne-crashed (sym (cleaned_short row e) ∙ h)

-- A row's call raises anything but ParseError only for cells beyond the header.
treasury_row-crashed :
    (date_header column : Text) (row : CsvRow)
    → treasury_row date_header column row ≡ crashed
    → row.extra ≢ []
unfolding treasury_row
treasury_row-crashed date_header column row h = elim (>>=-eq-crashed (cleaned_of row) _ h) [
  | inl e ↦ cleaned-crashed row e
  | inr (cleaned, k) ↦ absurd (point-ne-crashed _ _ k)
]

treasury_row-extra :
    (date_header column : Text) (row : CsvRow) (cell : Text) (more : List Text)
    → row.extra ≡ cell ∷ more
    → treasury_row date_header column row ≡ crashed
unfolding treasury_row
treasury_row-extra date_header column row cell more e = rw e

module _ (date_header column : Text) (fieldnames : List Text) where
  rows-crashed :
      (rows : List (List Text))
      → treasury_rows date_header column (dict_rows fieldnames rows) ≡ crashed
      → (row : List Text) × IsIn row rows × (length fieldnames < length row)
  unfolding treasury_rows dict_rows
  rows-crashed [] h = cc
  rows-crashed ([] ∷ rows) h = let (row, at, long) = rows-crashed rows h in (row, inr at, long)
  rows-crashed ((cell ∷ cells) ∷ rows) h =
      elim (>>=-eq-crashed (treasury_row date_header column (row_from [] fieldnames (cell ∷ cells)))
        _ h) [
          | inl e ↦ (
            cell ∷ cells,
            inl refl,
            row_from-no_extra [] fieldnames (cell ∷ cells)
                (treasury_row-crashed date_header column (row_from [] fieldnames (cell ∷ cells)) e),
          )
          | inr (p, k) ↦
              elim (>>=-eq-crashed (treasury_rows date_header column (dict_rows fieldnames rows)) _
                k) [
                  | inl e ↦ let (row, at, long) = rows-crashed rows e in (row, inr at, long)
                  | inr (ps, l) ↦ absurd (read-ne-crashed l)
                ]
        ]

  rows_long_row :
      (before after : List (List Text)) (row : List Text)
      → All
          (λ r. (p : Option Point) × (treasury_row date_header column r ≡ read p))
          (dict_rows fieldnames before)
      → length fieldnames < length row
      → treasury_rows date_header column (dict_rows fieldnames (before ++ row ∷ after)) ≡ crashed
  unfolding treasury_rows dict_rows
  rows_long_row [] after [] h long = absurd (omega arith)
  rows_long_row [] after (cell ∷ cells) h long =
      let (c, more, e) = row_from-extra [] fieldnames (cell ∷ cells) long in
      rw (treasury_row-extra date_header column (row_from [] fieldnames (cell ∷ cells)) c more e)
  rows_long_row ([] ∷ before) after row h long = rows_long_row before after row h long
  rows_long_row ((cell ∷ cells) ∷ before) after row ((p, e), h) long =
      rw e (rw (rows_long_row before after row h long))

some_points-ne-crashed : (ps : List Point) → some_points ps ≢ crashed
some_points-ne-crashed [] h = cc
some_points-ne-crashed (p ∷ ps) h = cc

dated_crashed :
    (column : Text) (fieldnames : List Text) (rows : List (List Text)) (date_header : Option Text)
    → rows_with_date column date_header (dict_rows fieldnames rows) ≡ crashed
    → (row : List Text) × IsIn row rows × (length fieldnames < length row)
dated_crashed column fieldnames rows none h = cc
dated_crashed column fieldnames rows (some date_header) h =
    elim (>>=-eq-crashed (treasury_rows date_header column (dict_rows fieldnames rows)) _ h) [
      | inl e ↦ rows-crashed date_header column fieldnames rows e
      | inr (ps, k) ↦ absurd (some_points-ne-crashed ps k)
    ]

-- Over a table of cells, the Treasury reader raises something other than ParseError only where a row
-- has more cells than the header.
pub treasury_table-crashed :
    (column : Text) (fieldnames : List Text) (rows : List (List Text))
    → treasury_table column (fieldnames ∷ rows) ≡ crashed
    → (row : List Text) × IsIn row rows × (length fieldnames < length row)
unfolding treasury_table
treasury_table-crashed column fieldnames rows h =
    elim (Bool-cases (any (same_text column) (map strip fieldnames))) [
      | inl e ↦ dated_crashed column fieldnames rows _ (rw e at h)
      | inr e ↦
          let k : ◌≡◌ {A = Reading (List Point)} (parse_error no_column) crashed = (rw e at h) in cc
    ]

-- A row with more cells than the header, behind rows that are read, makes the Treasury reader raise
-- something that is no ParseError, where the header has the column and a date column.
pub treasury_table_long_row :
    (column date_header : Text) (fieldnames : List Text) (before after : List (List Text))
    (row : List Text)
    → any (same_text column) (map strip fieldnames) ≡ true
    → date_header_of (map strip fieldnames) ≡ some date_header
    → All
        (λ r. (p : Option Point) × (treasury_row date_header column r ≡ read p))
        (dict_rows fieldnames before)
    → length fieldnames < length row
    → treasury_table column (fieldnames ∷ before ++ row ∷ after) ≡ crashed
unfolding treasury_table
treasury_table_long_row column date_header fieldnames before after row has_column has_date reads
      long =
    rw has_column
      (rw has_date (rw (rows_long_row date_header column fieldnames before after row reads long)))
