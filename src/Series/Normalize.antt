-- ===== src/Series/Normalize.antt =====
-- mios/series/normalize.py with `NormalizeState` of mios/series/repo.py: raw items into rows, driven
-- by the registry of series.
pub mod State
pub mod Keeps
pub mod Repeats
use invest.Base.{
  ℕ, ◌+◌, ◌≡◌, Bool, true, false, Option, none, some, String, List, [], ◌∷◌, ◌++◌, str_eq,
  if◌then◌else◌, filter, sort_by_text,
}
use invest.Series.Repo.{SeriesSpec, Table, Point, WriteResult, write_points}
use invest.Ingestion.RawStore.{RawItem}
use invest.Series.Normalize.State.{ProcessedState, is_processed, mark}

-- A parser's points, or the message of its `ParseError`.
pub data Parsed : Type 0 where
  points : List Point → Parsed
  parse_error : String → Parsed

-- The texts that the report collects.
pub data Failure : Type 0 where
  unknown_series : String → Failure
  unreadable : String → String → String → Failure

pub record NormalizeReport : Type 0 where
  pub raw_items : ℕ
  pub written : ℕ
  pub skipped : ℕ
  pub revisions : ℕ
  pub failures : List Failure

abbrev pub empty_report : NormalizeReport
empty_report = record { raw_items = 0; written = 0; skipped = 0; revisions = 0; failures = [] }

-- The two tables that a run changes.
pub record Db : Type 0 where
  pub observations : Table
  pub state : ProcessedState

-- The loop's variables for one raw item: the tables, the report and `touched`.
pub record Run : Type 0 where
  pub db : Db
  pub report : NormalizeReport
  pub touched : Bool

abbrev pub add_written : NormalizeReport → WriteResult → NormalizeReport
add_written report result = record report {
  written = report.written + result.written;
  skipped = report.skipped + result.skipped;
  revisions = report.revisions + result.revisions;
}

-- `registry[sid]`
unfoldable pub spec_of : String → List SeriesSpec → Option SeriesSpec
spec_of series_id [] = none
spec_of series_id (spec ∷ registry) =
    if str_eq spec.series_id series_id then some spec else spec_of series_id registry

-- `by_source.setdefault(spec.source_id, []).append(spec.series_id)`
unfoldable pub add_to_source :
    SeriesSpec → List (String × List String) → List (String × List String)
add_to_source spec [] = (spec.source_id, spec.series_id ∷ []) ∷ []
add_to_source spec ((source_id, ids) ∷ sources) =
    if str_eq source_id spec.source_id
    then (source_id, ids ++ spec.series_id ∷ []) ∷ sources
    else (source_id, ids) ∷ add_to_source spec sources

unfoldable pub by_source_from :
    List (String × List String) → List SeriesSpec → List (String × List String)
unfolding add_to_source
by_source_from sources [] = sources
by_source_from sources (spec ∷ wanted) = by_source_from (add_to_source spec sources) wanted

-- `RawStore.items` of a source, and the parsers of mios/series/parsers.py.
module _ (registry : List SeriesSpec) (items : String → List RawItem)
    (parse : SeriesSpec → String → Parsed) where
  -- What follows the parser's call for one series of one item.
  unfoldable pub store_points : SeriesSpec → RawItem → Parsed → Run → Run
  store_points spec item (parse_error message) run = record run {
    report = record run.report {
      failures = run.report.failures ++ unreadable spec.series_id item.raw_item_id message ∷ [];
    };
    touched = true;
  }
  store_points spec item (points ps) run =
      let (table, result) =
        write_points run.db.observations spec ps item.raw_item_id item.retrieved_at in
      record {
        db = record {
          observations = table;
          state = mark item.raw_item_id spec.series_id result.written result.skipped run.db.state;
        };
        report = add_written run.report result;
        touched = true;
      }

  -- The body of the loop over `series_ids`; `done` is what was processed when the run began. A
  -- series of `by_source` is in the registry, so the lookup does not fail.
  unfoldable pub normalize_series : ProcessedState → RawItem → String → Run → Run
  unfolding store_points spec_of
  normalize_series done item series_id run =
      if is_processed done item.raw_item_id series_id
      then run
      else elim (spec_of series_id registry) [
        | none ↦ run
        | some spec ↦ store_points spec item (parse spec item.payload_text) run
      ]

  unfoldable pub normalize_all : ProcessedState → RawItem → List String → Run → Run
  unfolding normalize_series
  normalize_all done item [] run = run
  normalize_all done item (series_id ∷ series_ids) run =
      normalize_all done item series_ids (normalize_series done item series_id run)

  abbrev pub count_touched : Run → Run
  count_touched run =
      if run.touched
      then record run { report = record run.report { raw_items = run.report.raw_items + 1 } }
      else run

  -- One raw item of a source.
  unfoldable pub normalize_item : ProcessedState → List String → RawItem → Run → Run
  unfolding normalize_all
  normalize_item done series_ids item run =
      count_touched (normalize_all done item series_ids (record run { touched = false }))

  unfoldable pub normalize_items : ProcessedState → List String → List RawItem → Run → Run
  unfolding normalize_item
  normalize_items done series_ids [] run = run
  normalize_items done series_ids (item ∷ rest) run =
      normalize_items done series_ids rest (normalize_item done series_ids item run)

  unfoldable pub normalize_sources : ProcessedState → List (String × List String) → Run → Run
  unfolding normalize_items
  normalize_sources done [] run = run
  normalize_sources done ((source_id, series_ids) ∷ sources) run =
      normalize_sources done sources (normalize_items done series_ids (items source_id) run)

  abbrev pub start : Db → Run
  start db = record { db = db; report = empty_report; touched = false }

  unfoldable pub run_wanted : Db → List SeriesSpec → Run
  unfolding normalize_sources by_source_from sort_by_text
  run_wanted db wanted =
      normalize_sources db.state (sort_by_text (λ s. s.0) (by_source_from [] wanted)) (start db)

  -- The series of a name, or the report that there is none.
  unfoldable pub run_on : Db → String → List SeriesSpec → Db × NormalizeReport
  unfolding run_wanted
  run_on db series_id [] = (db, record empty_report { failures = unknown_series series_id ∷ [] })
  run_on db series_id (spec ∷ specs) = let r = run_wanted db (spec ∷ specs) in (r.db, r.report)

  -- `Normalizer.run`, for one series or for all.
  unfoldable pub run : Db → Option String → Db × NormalizeReport
  unfolding run_wanted run_on
  run db none = let r = run_wanted db registry in (r.db, r.report)
  run db (some series_id) =
      run_on db series_id (filter (λ spec. str_eq spec.series_id series_id) registry)
