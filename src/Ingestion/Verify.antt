-- ===== src/Ingestion/Verify.antt =====
-- mios/ingestion/verify.py: a check of every source, which stores nothing. The texts of details are left
-- out; the adapter's fetch is a parameter, and so are the parsers.
pub mod Verdict
use invest.Base.{
  ℕ, Bool, true, false, not, ◌&&◌, Option, none, some, String, List, [], ◌∷◌, filter, length,
  str_eq, is_some, if◌then◌else◌, sort_by_text,
}
use invest.Base.Dict.{Dict, get}
use invest.Common.Decimal.{Decimal}
use invest.Common.Errors.{Raised, crash, Result, ok, err, ◌>>=◌}
use invest.Series.Repo.{SeriesSpec, Point}
use invest.Series.Parsers.{Reading, read, parse_error, crashed}
use invest.Ingestion.Collector.{
  SourceSpec, RawDraft, FetchResult, Fetched, fetched, adapter_error, transport_error, other_error,
}

pub record SeriesCheck : Type 0 where
  pub series_id : String
  pub passed : Bool
  pub points : ℕ

-- `reachable` is missing for a source that is disabled.
pub record SourceCheck : Type 0 where
  pub source_id : String
  pub reachable : Option Bool
  pub series : List SeriesCheck

abbrev pub all_passed : List SeriesCheck → Bool
all_passed [] = true
all_passed (c ∷ checks) = c.passed && all_passed checks

abbrev pub is_true : Option Bool → Bool
is_true none = false
is_true (some b) = b

-- `SourceCheck.ok`
abbrev pub is_ok : SourceCheck → Bool
is_ok c = is_true c.reachable && all_passed c.series

-- `SourceCheck.skipped`
abbrev pub is_skipped : SourceCheck → Bool
is_skipped c = not (is_some c.reachable)

-- `VerifyReport`
abbrev pub VerifyReport : Type 0
VerifyReport = List SourceCheck

unfoldable pub failures : VerifyReport → List SourceCheck
failures checks = filter (λ c. not (is_ok c) && not (is_skipped c)) checks

abbrev pub no_checks : List SourceCheck → Bool
no_checks [] = true
no_checks (c ∷ checks) = false

-- `VerifyReport.ok`
unfoldable pub report_ok : VerifyReport → Bool
unfolding failures
report_ok checks = no_checks (failures checks)

abbrev pub has_value : Point → Bool
has_value (observation_date, value, vintage_at) = is_some value

abbrev pub no_values : List Point → Bool
no_values [] = true
no_values (p ∷ points) = false

abbrev pub check_points : SeriesSpec → List Point → List Point → SeriesCheck
check_points spec points usable =
    if no_values usable
    then record { series_id = spec.series_id; passed = false; points = length points }
    else record { series_id = spec.series_id; passed = true; points = length usable }

-- One series of the payload: a `ParseError` is a failed check, another exception ends the run.
abbrev pub check_reading : SeriesSpec → Reading (List Point) → Result SeriesCheck
check_reading spec (read points) = ok (check_points spec points (filter has_value points))
check_reading spec (parse_error e) =
    ok (record { series_id = spec.series_id; passed = false; points = 0 })
check_reading spec crashed = err (crash "AttributeError")

-- `SeriesRegistry.for_source`
abbrev pub for_source : List SeriesSpec → String → List SeriesSpec
for_source registry source_id = filter (λ s. str_eq s.source_id source_id) registry

abbrev pub id_of : SourceSpec → String
id_of s = s.source_id

abbrev pub found_or : List SourceSpec → List SourceSpec → List SourceSpec
found_or sources [] = sources
found_or sources (s ∷ found) = s ∷ found

-- The source that is asked for, if it is there; otherwise every source. A dict's values have its keys
-- as their identifiers.
abbrev pub wanted : List SourceSpec → Option String → List SourceSpec
wanted sources none = sources
wanted sources (some source_id) =
    found_or sources (filter (λ s. str_eq s.source_id source_id) sources)

module _ (parse : SeriesSpec → String → Reading (List Point)) (fetch : SourceSpec → Fetched)
    (registry : List SeriesSpec) where
  unfoldable pub check_payload : String → List SeriesSpec → Result (List SeriesCheck)
  check_payload payload [] = ok []
  check_payload payload (spec ∷ specs) = do
    c ← check_reading spec (parse spec payload)
    checks ← check_payload payload specs
    ok (c ∷ checks)

  abbrev pub unreachable : SourceSpec → Result SourceCheck
  unreachable spec = ok (record { source_id = spec.source_id; reachable = some false; series = [] })

  abbrev pub check_drafts : SourceSpec → List RawDraft → Result SourceCheck
  check_drafts spec [] = unreachable spec
  check_drafts spec (draft ∷ drafts) = do
    checks ← check_payload draft.payload_text (for_source registry spec.source_id)
    ok (record { source_id = spec.source_id; reachable = some true; series = checks })

  abbrev pub check_fetched : SourceSpec → Fetched → Result SourceCheck
  check_fetched spec (adapter_error e) = unreachable spec
  check_fetched spec (transport_error e) = unreachable spec
  check_fetched spec (other_error e) = err e
  check_fetched spec (fetched result) =
      if result.not_modified
      then ok (record { source_id = spec.source_id; reachable = some true; series = [] })
      else check_drafts spec result.drafts

  -- `_check_one`
  unfoldable pub check_one : SourceSpec → Result SourceCheck
  unfolding check_payload
  check_one spec =
      if spec.enabled
      then check_fetched spec (fetch spec)
      else ok (record { source_id = spec.source_id; reachable = none; series = [] })

  unfoldable pub check_all : List SourceSpec → Result VerifyReport
  check_all [] = ok []
  check_all (spec ∷ specs) = do c ← check_one spec; checks ← check_all specs; ok (c ∷ checks)

  -- `check`
  unfoldable pub check : List SourceSpec → Option String → Result VerifyReport
  check sources source_id = check_all (sort_by_text id_of (wanted sources source_id))
