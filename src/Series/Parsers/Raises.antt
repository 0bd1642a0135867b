-- ===== src/Series/Parsers/Raises.antt =====
-- The readers of rows: which exceptions they raise.
use invest.Base.{ℕ, ◌≢◌, Bool, Option, none, some, arith}
use invest.Common.Dates.{Date}
use invest.Common.Json.{Json, object, text_of}
use invest.Common.Text.{Text, is_literal, strip}
use invest.Series.Parsers.Rows.{Format, fred, alfred, twelvedata, dated_value, reader}
use invest.Series.Parsers.{
  crashed, value_unless, iso_date_of, is_fred_missing, fred_point, fred_row, alfred_point,
  alfred_row, first_word, twelvedata_point, twelvedata_row,
}

module _ (repr : Json → Text) (week_date : Text → Option Date) where
  dated_value-ne-crashed :
      (day : Text) (missing : Bool) (raw : Text) (vintage_at : Option ℕ)
      → dated_value repr week_date day missing raw vintage_at ≢ crashed
  unfolding dated_value iso_date_of value_unless
  dated_value-ne-crashed day missing raw vintage_at h = ground arith

  fred_point-ne-crashed :
      (row : Json) (date value : Option Json) → fred_point repr week_date row date value ≢ crashed
  fred_point-ne-crashed row none value h = cc
  fred_point-ne-crashed row (some d) none h = cc
  fred_point-ne-crashed row (some d) (some v) h =
      let raw = strip (text_of repr v) in
      dated_value-ne-crashed (text_of repr d) (is_fred_missing raw) raw none
        (unfold dated_value in h)

  twelvedata_point-ne-crashed :
      (row : Json) (date value : Option Json)
      → twelvedata_point repr week_date row date value ≢ crashed
  twelvedata_point-ne-crashed row none value h = cc
  twelvedata_point-ne-crashed row (some d) none h = cc
  twelvedata_point-ne-crashed row (some d) (some v) h =
      let raw = strip (text_of repr v) in
      dated_value-ne-crashed (first_word (text_of repr d)) (is_literal "" raw) raw none
        (unfold dated_value in h)

  alfred_point-ne-crashed :
      (row : Json) (date value start : Option Json)
      → alfred_point repr week_date row date value start ≢ crashed
  unfolding iso_date_of value_unless
  alfred_point-ne-crashed row none value start h = cc
  alfred_point-ne-crashed row (some d) none start h = cc
  alfred_point-ne-crashed row (some d) (some v) none h = cc
  alfred_point-ne-crashed row (some d) (some v) (some t) h = ground arith

  pub reader-ne-crashed : (f : Format) (row : Json) → reader repr week_date f row ≢ crashed
  unfolding fred_row alfred_row twelvedata_row
  reader-ne-crashed fred (object fields) h = fred_point-ne-crashed (object fields) _ _ h
  reader-ne-crashed twelvedata (object fields) h = twelvedata_point-ne-crashed (object fields) _ _ h
  reader-ne-crashed alfred (object fields) h = alfred_point-ne-crashed (object fields) _ _ _ h
  reader-ne-crashed f row h = cc
