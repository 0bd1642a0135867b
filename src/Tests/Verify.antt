-- ===== src/Tests/Verify.antt =====
-- Runs of mios/ingestion/verify.py.
use invest.Base.{false, some, none, String, [], ◌∷◌, List, sort_by_text, if◌then◌else◌, str_eq}
use invest.Base.Int.{pos}
use invest.Common.Dates.{date}
use invest.Common.Decimal.{finite}
use invest.Series.Repo.{SeriesSpec, Point}
use invest.Series.Parsers.{Reading, read, parse_error, not_json}
use invest.Ingestion.Collector.{SourceSpec, Fetched, fetched}
use invest.Ingestion.Verify.{check, id_of}
use invest.Ingestion.Verify.Verdict.{Concludes, IsVerdict, check-IsVerdict}
use invest.Tests.Config.{fred, payroll_series, claims_series}

abbrev one_point : List Point
one_point = (date 2026 5 1, some (finite (pos 210) 0), none) ∷ []

-- The parser of payrolls reads a figure, that of claims does not.
abbrev parse : SeriesSpec → String → Reading (List Point)
parse spec payload =
    if str_eq spec.series_id "ser_us_nfp_level" then read one_point else parse_error not_json

abbrev fetch : SourceSpec → Fetched
fetch s = fetched (record {
  drafts = record { payload_text = "{}"; content_type = "application/json"; url = none } ∷ [];
  parse_failures = [];
  etag = none;
  last_modified = none;
  not_modified = false;
})

abbrev ecb : SourceSpec
ecb = record { source_id = "src_ecb"; enabled = false; min_interval = 1000000 }

check-IsVerdict_example :
    Concludes parse fetch
      (payroll_series "src_fred" ∷ claims_series ∷ [])
      (IsVerdict parse fetch
        (payroll_series "src_fred" ∷ claims_series ∷ [])
        (sort_by_text id_of (fred ∷ ecb ∷ [])))
      (check parse fetch (payroll_series "src_fred" ∷ claims_series ∷ []) (fred ∷ ecb ∷ []) none)
check-IsVerdict_example =
    check-IsVerdict parse fetch (payroll_series "src_fred" ∷ claims_series ∷ []) (fred ∷ ecb ∷ [])
      none
