-- ===== src/Ingestion/Collector/Collect.antt =====
-- `Collector.collect` of mios/ingestion/collector.py: one fetch of a source, end to end.
use invest.Base.{
  ℕ, suc, Bool, true, false, Option, none, some, String, List, [], ◌∷◌, ◌++◌, if◌then◌else◌, length,
  take,
}
use invest.Base.Dict
use invest.Base.Dict.{Dict}
use invest.Common.Errors.{mios_error, Result, ok, err}
use invest.Common.Labels.{RunStatus, success, degraded, failed, skipped}
use invest.Common.StateStore.{StateFile, load}
use invest.Ingestion.RawStore
use invest.Ingestion.RawStore.{RawItem, FileRawStore}
use invest.Ingestion.Health.{SourceHealth, record_success, record_failure}
use invest.Scheduler.RateLimit.{acquire}
use invest.Ingestion.Collector.{
  SourceSpec, RawDraft, ParseFailure, FetchResult, Fetched, fetched, adapter_error, transport_error,
  other_error, Conditional, CollectReport, World, Readings, conditional_of, save_conditional,
  put_dead_letter,
}

abbrev pub empty_report : Readings → String → RunStatus → CollectReport
empty_report t source_id status = record {
  run_id = t.run_id;
  source_id = source_id;
  ts = t.ended_at;
  status = status;
  fetched = 0;
  stored = 0;
  duplicates = 0;
  parse_failures = 0;
  not_modified = false;
  error = none;
  stored_ids = [];
}

-- `_finish`: the report in the metrics and the run in the audit log.
unfoldable pub finish : Readings → CollectReport → World → World
finish t report w = record w {
  metrics = w.metrics ++ report ∷ [];
  runs =
      w.runs
      ++ record {
        run_id = report.run_id;
        source_id = report.source_id;
        started_at = t.started_at;
        ended_at = report.ts;
        status = report.status;
        output_refs = report.stored_ids;
        error = report.error;
      }
        ∷ [];
}

unfoldable pub put_failures : Readings → String → List ParseFailure → World → World
unfolding put_dead_letter
put_failures t source_id [] w = w
put_failures t source_id (f ∷ failures) w =
    put_failures t source_id failures
      (record w { dlq = put_dead_letter w.dlq t.at_update source_id f.reason f.payload_snippet })

-- A change of the health file, and what follows unless it raises.
abbrev pub with_health :
    Result (StateFile SourceHealth)
    → World
    → (World → Result CollectReport × World)
    → Result CollectReport × World
with_health (err e) w k = (err e, w)
with_health (ok file) w k = k (record w { health = file })

abbrev pub with_http_state :
    Result (StateFile Conditional)
    → World
    → (World → Result CollectReport × World)
    → Result CollectReport × World
with_http_state (err e) w k = (err e, w)
with_http_state (ok file) w k = k (record w { http_state = file })

-- `health.record_success` and the report that is returned.
unfoldable pub succeed : Readings → String → CollectReport → World → Result CollectReport × World
unfolding finish
succeed t source_id report w =
    with_health (record_success w.health source_id t.at_update) w
      (λ w'. (ok report, finish t report w'))

-- `health.record_failure`, the report of the failure, and the `CollectError`.
unfoldable pub fail : Readings → String → String → World → Result CollectReport × World
unfolding finish
fail t source_id error w =
    with_health (record_failure w.health source_id error t.at_update) w (λ w'. (
      err (mios_error error),
      finish t (record (empty_report t source_id failed) { error = some error }) w',
    ))

-- The path's month, and sha256 over the payload's text.
module _ (month : ℕ → String) (content_hash_of : String → String) where
  abbrev pub build_raw_item : String → RawDraft → String → ℕ → RawItem
  build_raw_item source_id draft raw_item_id now = record {
    raw_item_id = raw_item_id;
    source_id = source_id;
    retrieved_at = now;
    content_hash = content_hash_of draft.payload_text;
    content_type = draft.content_type;
    payload_text = draft.payload_text;
    url = draft.url;
  }

  -- The variables of the loop over the drafts: `stored_ids` and `duplicates`.
  abbrev pub Counts : Type 0
  Counts = List String × ℕ

  abbrev pub after_put :
      Result Bool × FileRawStore
      → String
      → Counts
      → (Counts → FileRawStore → Result Counts × FileRawStore)
      → Result Counts × FileRawStore
  after_put (ok true, store) id (ids, duplicates) rest = rest (ids ++ id ∷ [], duplicates) store
  after_put (ok false, store) id (ids, duplicates) rest = rest (ids, suc duplicates) store
  after_put (err e, store) id counts rest = (err e, store)

  -- The loop from draft `n` on.
  unfoldable pub store_drafts :
      Readings → String → ℕ → List RawDraft → Counts → FileRawStore → Result Counts × FileRawStore
  store_drafts t source_id n [] counts store = (ok counts, store)
  store_drafts t source_id n (draft ∷ drafts) counts store =
      after_put
        (RawStore.put month (build_raw_item source_id draft (t.raw_item_id n) (t.retrieved_at n))
          store)
        (t.raw_item_id n) counts (store_drafts t source_id (suc n) drafts)

  abbrev pub status_of : List ParseFailure → RunStatus
  status_of [] = success
  status_of (f ∷ failures) = degraded

  abbrev pub report_of : Readings → String → FetchResult → Counts → CollectReport
  report_of t source_id r (ids, duplicates) =
      record (empty_report t source_id (status_of r.parse_failures)) {
        fetched = length r.drafts;
        stored = length ids;
        duplicates = duplicates;
        parse_failures = length r.parse_failures;
        stored_ids = take 20 ids;
      }

  -- What follows the loop over the drafts.
  unfoldable pub after_drafts :
      Readings
      → String
      → FetchResult
      → World
      → Result Counts × FileRawStore
      → Result CollectReport × World
  unfolding put_failures succeed
  after_drafts t source_id r w (err e, store) = (err e, record w { store = store })
  after_drafts t source_id r w (ok counts, store) =
      let w' = put_failures t source_id r.parse_failures (record w { store = store }) in
      with_http_state (save_conditional w'.http_state source_id r.etag r.last_modified) w'
        (succeed t source_id (report_of t source_id r counts))

  -- What follows the call of `_fetch`.
  unfoldable pub conclude : Readings → String → Fetched → World → Result CollectReport × World
  unfolding fail after_drafts store_drafts
  conclude t source_id (other_error e) w = (err e, w)
  conclude t source_id (transport_error message) w = fail t source_id message w
  conclude t source_id (adapter_error message) w =
      fail t source_id message
        (record w { dlq = put_dead_letter w.dlq t.at_update source_id message "" })
  conclude t source_id (fetched r) w =
      if r.not_modified
      then succeed t source_id (record (empty_report t source_id success) { not_modified = true }) w
      else after_drafts t source_id r w (store_drafts t source_id 0 r.drafts ([], 0) w.store)

  module _ (fetch : SourceSpec → Option Conditional → Fetched) where
    -- `_fetch`: the state file that cannot be read raises a `MiosError` that the caller does not
    -- catch.
    abbrev pub fetch_with : SourceSpec → Result (Dict Conditional) → Fetched
    fetch_with spec (err e) = other_error e
    fetch_with spec (ok state) = fetch spec (conditional_of state spec.source_id)

    unfoldable pub collect_enabled :
        Readings → String → SourceSpec → World → Result CollectReport × World
    unfolding conclude
    collect_enabled t source_id spec w =
        let (last_uses, waited) =
          acquire w.last_uses source_id spec.min_interval t.at_acquire t.after_sleep in
        conclude t source_id (fetch_with spec (load w.http_state))
          (record w { last_uses = last_uses })

    abbrev pub collect_spec :
        Readings → String → Option SourceSpec → World → Result CollectReport × World
    collect_spec t source_id none w = (err (mios_error "unknown source"), w)
    collect_spec t source_id (some spec) w =
        if spec.enabled
        then collect_enabled t source_id spec w
        else let report = empty_report t source_id skipped in (ok report, finish t report w)

    -- `Collector.collect`
    unfoldable pub collect :
        Dict SourceSpec → Readings → String → World → Result CollectReport × World
    unfolding collect_enabled finish
    collect sources t source_id w = collect_spec t source_id (Dict.get source_id sources) w
