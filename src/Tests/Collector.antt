-- ===== src/Tests/Collector.antt =====
-- Runs of mios/ingestion/health.py and mios/ingestion/collector.py.
use invest.Base.{ℕ, ◌+◌, ◌≡◌, refl, true, false, Option, none, some, String, List, [], ◌∷◌, map}
use invest.Base.Dict
use invest.Base.Dict.{Dict}
use invest.Common.Errors.{Raised, err}
use invest.Common.StateStore.{missing, unreadable, load}
use invest.Ingestion.RawStore
use invest.Ingestion.RawStore.{empty_store}
use invest.Ingestion.RawStore.Consistent.{empty_store-IsConsistent}
use invest.Ingestion.Health
use invest.Ingestion.Health.Counts.{Event, Counted, record_history, record_history-Counted}
use invest.Ingestion.Collector.{
  SourceSpec, RawDraft, Fetched, fetched, CollectReport, World, Readings, Conditional,
  save_conditional,
}
use invest.Ingestion.Collector.Collect.{store_drafts, collect}
use invest.Ingestion.Collector.Drafts.{Stores, store_drafts-Stores}
use invest.Ingestion.Collector.Reports.{EndsReported, collect-EndsReported, collect_unreadable}

abbrev history : List Event
history = ("src_fred", some "timeout", 30) ∷ ("src_bls", none, 20) ∷ ("src_fred", none, 10) ∷ []

record_history-Counted_example : Counted history (record_history history)
record_history-Counted_example = record_history-Counted history

abbrev month : ℕ → String
month instant = "2026-11"

-- A text in the place of its hash.
abbrev content_hash_of : String → String
content_hash_of payload_text = payload_text

abbrev readings : Readings
readings = record {
  run_id = "run_1";
  started_at = 100;
  at_update = 110;
  ended_at = 120;
  at_acquire = 5;
  after_sleep = λ waited. 5 + waited;
  raw_item_id = λ n. "raw_1";
  retrieved_at = λ n. 105;
}

abbrev draft : String → RawDraft
draft payload_text = record {
  payload_text = payload_text;
  content_type = "application/json";
  url = none;
}

abbrev drafts : List RawDraft
drafts = draft "{\"a\": 1}" ∷ draft "{\"a\": 1}" ∷ []

abbrev fred : SourceSpec
fred = record { source_id = "src_fred"; enabled = true; min_interval = 1000000 }

abbrev sources : Dict SourceSpec
sources = ("src_fred", fred) ∷ []

abbrev fetch : SourceSpec → Option Conditional → Fetched
fetch spec conditional = fetched (record {
  drafts = drafts;
  parse_failures = record { reason = "no value"; payload_snippet = "x" } ∷ [];
  etag = some "v1";
  last_modified = none;
  not_modified = false;
})

abbrev world : World
world = record {
  store = empty_store;
  dlq = [];
  health = missing;
  http_state = missing;
  last_uses = [];
  metrics = [];
  runs = [];
}

store_drafts-Stores_example :
    Stores month content_hash_of "src_fred" drafts []
      ([], 0)
      (store_drafts month content_hash_of readings "src_fred" 0 drafts ([], 0) empty_store)
store_drafts-Stores_example =
    store_drafts-Stores month content_hash_of "src_fred" readings 0 drafts ([], 0) empty_store
      empty_store-IsConsistent tt

collect-EndsReported_example :
    EndsReported world (collect month content_hash_of fetch sources readings "src_fred" world)
collect-EndsReported_example =
    collect-EndsReported month content_hash_of fetch sources readings "src_fred" world
      empty_store-IsConsistent tt

collect_unreadable_run :
    let ended =
      collect month content_hash_of fetch sources readings "src_fred"
        (record world { http_state = unreadable }) in
    ((e : Raised) × (ended.0 ≡ err e))
    × (ended.1.metrics ≡ [])
    × (ended.1.runs ≡ [])
    × (ended.1.health ≡ missing)
unfolding Dict.get
collect_unreadable_run =
    collect_unreadable month content_hash_of fetch sources readings "src_fred"
      (record world { http_state = unreadable }) fred refl refl refl

abbrev counts : CollectReport → ℕ × ℕ × ℕ × ℕ
counts r = (r.fetched, r.stored, r.duplicates, r.parse_failures)

collects_one_of_two :
    map counts (collect month content_hash_of fetch sources readings "src_fred" world).1.metrics
    ≡ (2, 1, 1, 1) ∷ []
unfolding collect Dict.get load RawStore.put Dict.put save_conditional Health.record_success
collects_one_of_two = refl
