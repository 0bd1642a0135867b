-- ===== src/Ingestion/Collector.antt =====
-- mios/ingestion/collector.py, with the records of mios/ingestion/adapter.py, the dead letter queue of
-- mios/ingestion/dlq.py and `build_raw_item` of mios/ingestion/rawitem.py.
pub mod Collect
pub mod Drafts
pub mod Reports
use invest.Base.Strings.{first_chars}
use invest.Base.{
  ℕ, suc, ◌+◌, Bool, true, false, Option, none, some, String, List, [], ◌∷◌, ◌++◌, str_eq,
  if◌then◌else◌, length, take, is_some,
}
use invest.Base.Dict
use invest.Base.Dict.{Dict}
use invest.Common.Errors.{Raised, mios_error, Result, ok, err}
use invest.Common.Labels.{RunStatus, success, degraded, failed, skipped}
use invest.Common.StateStore.{StateFile, load, save}
use invest.Ingestion.RawStore
use invest.Ingestion.RawStore.{RawItem, FileRawStore}
use invest.Ingestion.Health.{SourceHealth, record_success, record_failure}
use invest.Scheduler.RateLimit.{acquire}

-- What collecting reads of a `SourceSpec` of config/sources; the interval is in microseconds.
pub record SourceSpec : Type 0 where
  pub source_id : String
  pub enabled : Bool
  pub min_interval : ℕ

pub record RawDraft : Type 0 where
  pub payload_text : String
  pub content_type : String
  pub url : Option String

pub record ParseFailure : Type 0 where
  pub reason : String
  pub payload_snippet : String

pub record FetchResult : Type 0 where
  pub drafts : List RawDraft
  pub parse_failures : List ParseFailure
  pub etag : Option String
  pub last_modified : Option String
  pub not_modified : Bool

-- How an adapter's `fetch` ends: with a result, an `AdapterError`, a `TransportError`, or another
-- exception.
pub data Fetched : Type 0 where
  fetched : FetchResult → Fetched
  adapter_error : String → Fetched
  transport_error : String → Fetched
  other_error : Raised → Fetched

pub record DeadLetterRecord : Type 0 where
  pub ts : ℕ
  pub source_id : String
  pub reason : String
  pub payload_snippet : String

-- The entries `<id>.etag` and `<id>.last_modified` of the HTTP state.
pub record Conditional : Type 0 where
  pub etag : Option String
  pub last_modified : Option String

pub record CollectReport : Type 0 where
  pub run_id : String
  pub source_id : String
  pub ts : ℕ
  pub status : RunStatus
  pub fetched : ℕ
  pub stored : ℕ
  pub duplicates : ℕ
  pub parse_failures : ℕ
  pub not_modified : Bool
  pub error : Option String
  pub stored_ids : List String

-- An `AgentRunRecord` of the audit log; its agent is `collector.<source_id>`.
pub record AgentRun : Type 0 where
  pub run_id : String
  pub source_id : String
  pub started_at : ℕ
  pub ended_at : ℕ
  pub status : RunStatus
  pub output_refs : List String
  pub error : Option String

-- What a collector changes. Sinks and queues are append-only lists.
pub record World : Type 0 where
  pub store : FileRawStore
  pub dlq : List DeadLetterRecord
  pub health : StateFile SourceHealth
  pub http_state : StateFile Conditional
  pub last_uses : Dict ℕ
  pub metrics : List CollectReport
  pub runs : List AgentRun

-- What one call takes from the clock and from `new_id`: the readings of the wall clock at its start,
-- within and at its end, those of the rate limiter, and for each draft its identifier and its time.
pub record Readings : Type 0 where
  pub run_id : String
  pub started_at : ℕ
  pub at_update : ℕ
  pub ended_at : ℕ
  pub at_acquire : ℕ
  pub after_sleep : ℕ → ℕ
  pub raw_item_id : ℕ → String
  pub retrieved_at : ℕ → ℕ

-- A text that is missing or empty is false.
abbrev pub truthy : Option String → Option String
truthy none = none
truthy (some s) = if str_eq s "" then none else some s

-- `conditional_headers`, by the values that it sends.
abbrev pub conditional_headers : Option String → Option String → Conditional
conditional_headers etag last_modified = record {
  etag = truthy etag;
  last_modified = truthy last_modified;
}

abbrev pub no_conditional : Conditional
no_conditional = record { etag = none; last_modified = none }

abbrev pub or_no_conditional : Option Conditional → Conditional
or_no_conditional none = no_conditional
or_no_conditional (some c) = c

-- `headers or None`
abbrev pub or_nothing : Conditional → Option Conditional
or_nothing c = if is_some c.etag then some c else if is_some c.last_modified then some c else none

abbrev pub conditional_of : Dict Conditional → String → Option Conditional
conditional_of state source_id =
    let c = or_no_conditional (Dict.get source_id state) in
    or_nothing (conditional_headers c.etag c.last_modified)

-- The new value, if it is not empty.
abbrev pub or_kept : Option String → Option String → Option String
or_kept new old = if is_some (truthy new) then new else old

-- `_save_conditional`
unfoldable pub save_conditional :
    StateFile Conditional → String → Option String → Option String → Result (StateFile Conditional)
unfolding load save
save_conditional file source_id none none = ok file
save_conditional file source_id etag last_modified = elim (load file) [
  | err e ↦ err e
  | ok state ↦
      let old = or_no_conditional (Dict.get source_id state) in
      ok (
        save (
          Dict.put source_id
            (record {
              etag = or_kept etag old.etag;
              last_modified = or_kept last_modified old.last_modified;
            })
            state))
]

-- `DeadLetterQueue.put`
unfoldable pub put_dead_letter :
    List DeadLetterRecord → ℕ → String → String → String → List DeadLetterRecord
put_dead_letter dlq now source_id reason payload_snippet =
    dlq
    ++ record {
      ts = now;
      source_id = source_id;
      reason = reason;
      payload_snippet = first_chars 2000 payload_snippet;
    }
      ∷ []

-- `DeadLetterQueue.count`
unfoldable pub count_dead_letters : List DeadLetterRecord → String → ℕ
count_dead_letters [] source_id = 0
count_dead_letters (r ∷ dlq) source_id =
    (if str_eq r.source_id source_id then 1 else 0) + count_dead_letters dlq source_id
