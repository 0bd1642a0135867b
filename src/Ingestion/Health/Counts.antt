-- ===== src/Ingestion/Health/Counts.antt =====
-- The counters of mios/ingestion/health.py against the history of runs.
use invest.Base.{
  ℕ, suc, ◌+◌, ◌≡◌, refl, Bool, true, false, Option, none, some, String, List, [], ◌∷◌, str_eq,
  if◌then◌else◌, arith, length, filter, not, Bool-cases, inl, inr, subst, eq_iff,
}
use invest.Base.Dict
use invest.Base.Dict.{Dict, get-put}
use invest.Common.Errors.{Result, ok, ◌>>=◌}
use invest.Common.StateStore.{StateFile, missing, load}
use invest.Ingestion.Health.{
  SourceHealth, health_of, updated, update, record_success, record_failure,
}

-- A recorded run: its source, the error of a failure, and the instant.
abbrev pub Event : Type 0
Event = String × Option String × ℕ

abbrev pub record_event : StateFile SourceHealth → Event → Result (StateFile SourceHealth)
record_event file (source_id, none, now) = record_success file source_id now
record_event file (source_id, some error, now) = record_failure file source_id error now

-- The runs of all sources, the last one first.
unfoldable pub record_history : List Event → Result (StateFile SourceHealth)
unfolding record_success record_failure
record_history [] = ok missing
record_history (event ∷ before) = do file ← record_history before; record_event file event

abbrev has_failed : Option String → Bool
has_failed none = false
has_failed (some error) = true

abbrev pub own : String → List Event → List Event
own source_id = filter (λ (e : Event). str_eq e.0 source_id)

abbrev pub count_failures : List Event → ℕ
count_failures [] = 0
count_failures ((_, error, _) ∷ before) =
    (if has_failed error then 1 else 0) + count_failures before

-- The failures since the last success.
abbrev pub failures_in_a_row : List Event → ℕ
failures_in_a_row [] = 0
failures_in_a_row ((_, error, _) ∷ before) =
    let rest = failures_in_a_row before in if has_failed error then suc rest else 0

-- The instant of the last success.
abbrev pub last_success : List Event → Option ℕ
last_success [] = none
last_success ((_, error, now) ∷ before) =
    let rest = last_success before in if has_failed error then rest else some now

pub record IsCountOf (events : List Event) (h : SourceHealth) : Type 0 where
  pub runs : h.total_runs ≡ length events
  pub failures : h.total_failures ≡ count_failures events
  pub in_a_row : h.consecutive_failures ≡ failures_in_a_row events
  pub success : h.last_success_at ≡ last_success events

updated-IsCountOf :
    (events : List Event) (h : SourceHealth) (source_id : String) (error : Option String) (now : ℕ)
    (text : Option String)
    → IsCountOf events h
    → IsCountOf ((source_id, error, now) ∷ events) (updated h (not (has_failed error)) text now)
updated-IsCountOf events h source_id none now text c = record {
  runs = omega (arith, c.runs);
  failures = omega (arith, c.failures);
  in_a_row = refl;
  success = refl;
}
updated-IsCountOf events h source_id (some e) now text c = record {
  runs = omega (arith, c.runs);
  failures = omega (arith, c.failures);
  in_a_row = omega (arith, c.in_a_row);
  success = c.success;
}

-- After a history the file can be read, and has for each source the counts of its own runs.
abbrev pub Counted : List Event → Result (StateFile SourceHealth) → Type 0
Counted events o =
    (file : StateFile SourceHealth) × (o ≡ ok file)
    × (entries : Dict SourceHealth) × (load file ≡ ok entries)
    × ((source_id : String) → IsCountOf (own source_id events) (health_of entries source_id))

health_of-put :
    (entries : Dict SourceHealth) (a b : String) (h : SourceHealth)
    → health_of (Dict.put a h entries) b ≡ (if str_eq a b then h else health_of entries b)
unfolding health_of
health_of-put entries a b h = elim (Bool-cases (str_eq a b)) [
  | inl e ↦ rw (get-put, e) refl
  | inr e ↦ rw (get-put, e) refl
]

put-IsCountOf :
    (events : List Event) (entries : Dict SourceHealth) (source_id : String) (error : Option String)
    (now : ℕ) (text : Option String)
    → ((s : String) → IsCountOf (own s events) (health_of entries s))
    → (s : String)
    → IsCountOf (own s ((source_id, error, now) ∷ events)) (
        health_of
          (Dict.put source_id
            (updated (health_of entries source_id) (not (has_failed error)) text now)
            entries)
          s)
put-IsCountOf events entries source_id error now text c s =
    rw health_of-put (elim (Bool-cases (str_eq source_id s)) [
      | inr e ↦ rw e (c s)
      | inl e ↦ rw e (
          subst
            (λ t.
              IsCountOf ((source_id, error, now) ∷ own t events)
                (updated (health_of entries source_id) (not (has_failed error)) text now))
            ((eq_iff source_id s).0 e)
            (updated-IsCountOf (own source_id events) (health_of entries source_id) source_id error
              now text (c source_id)))
    ])

record_event-Counted :
    (event : Event) (events : List Event) (file : StateFile SourceHealth)
    (entries : Dict SourceHealth)
    → load file ≡ ok entries
    → ((s : String) → IsCountOf (own s events) (health_of entries s))
    → Counted (event ∷ events) (record_event file event)
unfolding record_success record_failure update load
record_event-Counted (source_id, none, now) events file entries e c =
    rw e (_, refl, _, refl, put-IsCountOf events entries source_id none now none c)
record_event-Counted (source_id, some text, now) events file entries e c =
    rw e (_, refl, _, refl, put-IsCountOf events entries source_id (some text) now _ c)

-- After any runs of any sources, recorded one after the other, the file can be read, and the health
-- of each source has the number of its runs, of its failures, of its failures since its last
-- success, and the instant of that success.
pub record_history-Counted : (events : List Event) → Counted events (record_history events)
unfolding record_history
record_history-Counted [] =
    unfold load health_of Dict.get in
    (
      missing,
      refl,
      [],
      refl,
      λ s. record { runs = refl; failures = refl; in_a_row = refl; success = refl },
    )
record_history-Counted (event ∷ before) =
    let (file, q, entries, e, c) = record_history-Counted before in
    rw q (record_event-Counted event before file entries e c)
