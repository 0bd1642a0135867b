-- ===== src/Series/Parsers/Named.antt =====
-- PARSERS and `get_parser` of mios/series/parsers.py.
use invest.Base.{Option, none, some, String, List, [], ◌∷◌}
use invest.Base.Dict.{Dict, get}
use invest.Common.Dates.{Date}
use invest.Common.Json.{LoadedJson, Json}
use invest.Common.Text.{Text}
use invest.Series.Repo.{Point, SeriesSpec}
use invest.Series.Parsers.{
  unknown_parser, Reading, parse_error, read, fred_json, alfred_json, twelvedata_json,
}
use invest.Series.Parsers.Treasury.{treasury_csv}

abbrev pub Parser : Type 0
Parser = String → SeriesSpec → Reading (List Point)

module _ (repr : Json → Text) (week_date : Text → Option Date) (loads : String → LoadedJson)
    (csv_rows : String → List (List Text)) where
  abbrev pub parsers : Dict Parser
  parsers =
      ("fred_json", λ payload spec. fred_json repr week_date loads payload)
      ∷ ("alfred_json", λ payload spec. alfred_json repr week_date loads payload)
      ∷ ("treasury_csv", λ payload spec. treasury_csv csv_rows payload spec)
      ∷ ("twelvedata_json", λ payload spec. twelvedata_json repr week_date loads payload)
      ∷ []

  abbrev pub or_unknown : Option Parser → Reading Parser
  or_unknown none = parse_error unknown_parser
  or_unknown (some parser) = read parser

  unfoldable pub get_parser : String → Reading Parser
  unfolding get
  get_parser name = or_unknown (get name parsers)
