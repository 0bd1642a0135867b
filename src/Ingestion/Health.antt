-- ===== src/Ingestion/Health.antt =====
-- mios/ingestion/health.py: the health of each source, in a state file.
pub mod Counts
use invest.Base.Strings.{first_chars}
use invest.Base.{
  ℕ, suc, ◌+◌, ◌≤◌, ◌≡◌, Bool, true, false, Option, none, some, String, List, [], ◌∷◌, ltb, filter,
  map, if◌then◌else◌, sort_by_text,
}
use invest.Base.Dict
use invest.Base.Dict.{Dict}
use invest.Common.Errors.{Result, ok, err, ◌>>=◌}
use invest.Common.StateStore.{StateFile, load, save}

pub record SourceHealth : Type 0 where
  pub source_id : String
  pub total_runs : ℕ
  pub total_failures : ℕ
  pub consecutive_failures : ℕ
  pub last_run_at : Option ℕ
  pub last_success_at : Option ℕ
  pub last_error : Option String

abbrev pub new_health : String → SourceHealth
new_health source_id = record {
  source_id = source_id;
  total_runs = 0;
  total_failures = 0;
  consecutive_failures = 0;
  last_run_at = none;
  last_success_at = none;
  last_error = none;
}

abbrev pub or_new : String → Option SourceHealth → SourceHealth
or_new source_id none = new_health source_id
or_new source_id (some h) = h

-- `data.get(source_id, {"source_id": source_id})`
unfoldable pub health_of : Dict SourceHealth → String → SourceHealth
health_of entries source_id = or_new source_id (Dict.get source_id entries)

-- The `update` of `_update`.
abbrev pub updated : SourceHealth → Bool → Option String → ℕ → SourceHealth
updated h succeeded error now = record {
  source_id = h.source_id;
  total_runs = h.total_runs + 1;
  last_run_at = some now;
  total_failures = h.total_failures + (if succeeded then 0 else 1);
  consecutive_failures = if succeeded then 0 else h.consecutive_failures + 1;
  last_success_at = if succeeded then some now else h.last_success_at;
  last_error = if succeeded then none else error;
}

unfoldable pub update :
    StateFile SourceHealth → String → Bool → Option String → ℕ → Result (StateFile SourceHealth)
unfolding load save health_of
update file source_id succeeded error now = do
  entries ← load file
  ok (save (Dict.put source_id (updated (health_of entries source_id) succeeded error now) entries))

unfoldable pub record_success :
    StateFile SourceHealth → String → ℕ → Result (StateFile SourceHealth)
unfolding update
record_success file source_id now = update file source_id true none now

-- `error[:500]`
unfoldable pub record_failure :
    StateFile SourceHealth → String → String → ℕ → Result (StateFile SourceHealth)
unfolding update
record_failure file source_id error now =
    update file source_id false (some (first_chars 500 error)) now

abbrev pub healths : Dict SourceHealth → List SourceHealth
healths entries = map (λ (entry : String × SourceHealth). entry.1) entries

unfoldable pub snapshot : StateFile SourceHealth → Result (List SourceHealth)
unfolding load sort_by_text
snapshot file = do entries ← load file; ok (sort_by_text (λ h. h.source_id) (healths entries))

unfoldable pub degraded : StateFile SourceHealth → Result (List SourceHealth)
unfolding snapshot
degraded file = do all ← snapshot file; ok (filter (λ h. ltb 0 h.consecutive_failures) all)
