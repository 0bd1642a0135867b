-- ===== src/Ingestion/Collector/Reports.antt =====
-- How `Collector.collect` ends, and what it reports: mios/ingestion/collector.py.
use invest.Base.{
  ℕ, suc, ◌+◌, ◌≡◌, refl, sym, ap, ◌∙◌, subst, ◌⊎◌, inl, inr, true, Option, none, some, String,
  List, [], ◌∷◌, ◌++◌, length, length-append, Bool-cases, arith, Begins-refl,
}
use invest.Base.Dict
use invest.Base.Dict.{Dict}
use invest.Common.Errors.{Raised, Result, ok, err}
use invest.Common.Labels.{failed}
use invest.Common.StateStore.{StateFile, unreadable, load}
use invest.Ingestion.RawStore.{FileRawStore}
use invest.Ingestion.RawStore.Consistent.{IsConsistent}
use invest.Ingestion.RawStore.Dedup.{IsDeduplicated}
use invest.Ingestion.Health.{SourceHealth}
use invest.Scheduler.RateLimit.{acquire}
use invest.Ingestion.Collector.{
  SourceSpec, ParseFailure, FetchResult, Fetched, fetched, adapter_error, transport_error,
  other_error, Conditional, CollectReport, World, Readings,
}
use invest.Ingestion.Collector.Collect.{
  finish, put_failures, with_health, with_http_state, succeed, fail, report_of, after_drafts,
  conclude, fetch_with, collect_enabled, collect_spec, collect,
}
use invest.Ingestion.Collector.Drafts.{IsKept, Stores, store_drafts-Stores}

-- What a call that began with the world `w` and returns `report` has done: the one new report of the
-- metrics is it, the audit log has one new run, the store has as many new files as it says, and each
-- draft that it counts is stored or a duplicate.
pub record IsReported (w : World) (report : CollectReport) (w' : World) : Type 0 where
  pub metrics : w'.metrics ≡ w.metrics ++ report ∷ []
  pub runs : length w'.runs ≡ suc (length w.runs)
  pub grown : length w'.store.files ≡ length w.store.files + report.stored
  pub counted : report.stored + report.duplicates ≡ report.fetched

-- What a call that raises has done: its world has no new report, or one, of a failure.
abbrev pub IsFailed : World → World → Type 0
IsFailed w w' =
    (w'.metrics ≡ w.metrics)
    ⊎ ((report : CollectReport) × (report.status ≡ failed)
        × (w'.metrics ≡ w.metrics ++ report ∷ [])
        × (w'.store ≡ w.store))

abbrev pub EndsReported : World → Result CollectReport × World → Type 0
EndsReported w (ok report, w') = IsKept w.store.files w'.store × IsReported w report w'
EndsReported w (err e, w') = IsKept w.store.files w'.store × IsFailed w w'

-- Nothing is reported between the two worlds.
abbrev SameReports : World → World → Type 0
SameReports w w' = (w'.metrics ≡ w.metrics) × (w'.runs ≡ w.runs)

put_failures_same :
    (t : Readings) (s : String) (failures : List ParseFailure) (w : World)
    → SameReports w (put_failures t s failures w) × ((put_failures t s failures w).store ≡ w.store)
unfolding put_failures
put_failures_same t s [] w = ((refl, refl), refl)
put_failures_same t s (f ∷ failures) w = put_failures_same t s failures _

-- A health file that cannot be written ends the call before it reports.
succeeded :
    (t : Readings) (report : CollectReport) (w w' : World) (o : Result (StateFile SourceHealth))
    → SameReports w w'
    → IsKept w.store.files w'.store
    → length w'.store.files ≡ length w.store.files + report.stored
    → report.stored + report.duplicates ≡ report.fetched
    → EndsReported w (with_health o w' (λ v. (ok report, finish t report v)))
succeeded t report w w' (err e) (m, r) k g c = (k, inl m)
succeeded t report w w' (ok file) (m, r) k g c =
    unfold finish in
    (
      k,
      record {
        metrics = ap (λ ms. ms ++ report ∷ []) m;
        runs = rw (length-append, r) (omega arith);
        grown = g;
        counted = c;
      },
    )

failed_report :
    (t : Readings) (report : CollectReport) (w w' : World) (e : Raised)
    (o : Result (StateFile SourceHealth))
    → SameReports w w'
    → IsKept w.store.files w'.store
    → w'.store ≡ w.store
    → report.status ≡ failed
    → EndsReported w (with_health o w' (λ v. (err e, finish t report v)))
failed_report t report w w' e (err x) (m, r) k q f = (k, inl m)
failed_report t report w w' e (ok file) (m, r) k q f =
    unfold finish in (k, inr (report, f, ap (λ ms. ms ++ report ∷ []) m, q))

saved :
    (t : Readings) (s : String) (report : CollectReport) (w w' : World)
    (o : Result (StateFile Conditional))
    → SameReports w w'
    → IsKept w.store.files w'.store
    → length w'.store.files ≡ length w.store.files + report.stored
    → report.stored + report.duplicates ≡ report.fetched
    → EndsReported w (with_http_state o w' (succeed t s report))
saved t s report w w' (err e) (m, r) k g c = (k, inl m)
saved t s report w w' (ok file) same k g c =
    unfold succeed in succeeded t report w (record w' { http_state = file }) _ same k g c

module _ (month : ℕ → String) (content_hash_of : String → String) where
  after_drafts-EndsReported :
      (t : Readings) (s : String) (r : FetchResult) (w w' : World)
      (o : Result (List String × ℕ) × FileRawStore)
      → SameReports w w'
      → Stores month content_hash_of s r.drafts w.store.files ([], 0) o
      → EndsReported w (after_drafts month content_hash_of t s r w' o)
  unfolding after_drafts
  after_drafts-EndsReported t s r w w' (err e, store) (m, _) k = (k, inl m)
  after_drafts-EndsReported t s r w w' (ok (ids, n), store) (m, q) (k, c, g, all) =
      let ((pm, pq), ps) = put_failures_same t s r.parse_failures (record w' { store = store }) in
      saved t s (report_of month content_hash_of t s r (ids, n)) w
        (put_failures t s r.parse_failures (record w' { store = store })) _ (pm ∙ m, pq ∙ q)
        (subst (IsKept w.store.files) (sym ps) k) (ap (λ st. length st.files) ps ∙ omega (arith, g))
        (omega (arith, c))

  kept :
      (w : World)
      → IsConsistent w.store
      → IsDeduplicated w.store.files
      → IsKept w.store.files w.store
  kept w c u = record { begins = Begins-refl w.store.files; consistent = c; deduplicated = u }

  conclude-EndsReported :
      (t : Readings) (s : String) (f : Fetched) (w w' : World)
      → SameReports w w'
      → w'.store ≡ w.store
      → IsConsistent w.store
      → IsDeduplicated w.store.files
      → EndsReported w (conclude month content_hash_of t s f w')
  unfolding conclude fail succeed
  conclude-EndsReported t s (other_error e) w w' same q c u =
      (subst (IsKept w.store.files) (sym q) (kept w c u), inl same.0)
  conclude-EndsReported t s (transport_error m) w w' same q c u =
      failed_report t _ w w' _ _ same (subst (IsKept w.store.files) (sym q) (kept w c u)) q refl
  conclude-EndsReported t s (adapter_error m) w w' same q c u =
      failed_report t _ w _ _ _ same (subst (IsKept w.store.files) (sym q) (kept w c u)) q refl
  conclude-EndsReported t s (fetched r) w w' same q c u = elim (Bool-cases r.not_modified) [
    | inl e ↦ rw e (
        succeeded t _ w w' _ same (subst (IsKept w.store.files) (sym q) (kept w c u))
          (ap (λ st. length st.files) q ∙ omega arith) refl)
    | inr e ↦
        rw (e, q)
          (after_drafts-EndsReported t s r w w' _ same
            (store_drafts-Stores month content_hash_of s t 0 r.drafts ([], 0) w.store c u))
  ]

  module _ (fetch : SourceSpec → Option Conditional → Fetched) where
    collect_enabled-EndsReported :
        (t : Readings) (s : String) (spec : SourceSpec) (w : World)
        → IsConsistent w.store
        → IsDeduplicated w.store.files
        → EndsReported w (collect_enabled month content_hash_of fetch t s spec w)
    unfolding collect_enabled
    collect_enabled-EndsReported t s spec w c u =
        let used = acquire w.last_uses s spec.min_interval t.at_acquire t.after_sleep in
        conclude-EndsReported t s (fetch_with month content_hash_of fetch spec (load w.http_state))
          w (record w { last_uses = used.0 }) (refl, refl) refl c u

    collect_spec-EndsReported :
        (t : Readings) (s : String) (spec : Option SourceSpec) (w : World)
        → IsConsistent w.store
        → IsDeduplicated w.store.files
        → EndsReported w (collect_spec month content_hash_of fetch t s spec w)
    collect_spec-EndsReported t s none w c u = (kept w c u, inl refl)
    collect_spec-EndsReported t s (some spec) w c u = elim (Bool-cases spec.enabled) [
      | inl e ↦ rw e (collect_enabled-EndsReported t s (record spec { enabled = true }) w c u)
      | inr e ↦ rw e (
          unfold finish in
          (
            kept w c u,
            record {
              metrics = refl;
              runs = rw length-append (omega arith);
              grown = omega arith;
              counted = refl;
            },
          ))
    ]

    -- A call of `collect` for any source, from a store without duplicates whose ledgers and cache
    -- agree with its files. Whatever the adapter gives, the files that were there stay and the store
    -- stays such a store. A call that returns a report has added it to the metrics, one run to the
    -- audit log, and as many files as it says, and its counts of stored drafts and duplicates add
    -- up to those fetched. A call that raises has added no report, or one of a failure, with the
    -- store as it was.
    pub collect-EndsReported :
        (sources : Dict SourceSpec) (t : Readings) (source_id : String) (w : World)
        → IsConsistent w.store
        → IsDeduplicated w.store.files
        → EndsReported w (collect month content_hash_of fetch sources t source_id w)
    unfolding collect
    collect-EndsReported sources t source_id w c u =
        collect_spec-EndsReported t source_id (Dict.get source_id sources) w c u

    -- A call for an enabled source whose HTTP state file cannot be read raises, and leaves neither a
    -- report, nor a run in the audit log, nor a failure in the health of the source.
    pub collect_unreadable :
        (sources : Dict SourceSpec) (t : Readings) (source_id : String) (w : World)
        (spec : SourceSpec)
        → Dict.get source_id sources ≡ some spec
        → spec.enabled ≡ true
        → w.http_state ≡ unreadable
        → let ended = collect month content_hash_of fetch sources t source_id w in
          ((e : Raised) × (ended.0 ≡ err e))
          × (ended.1.metrics ≡ w.metrics)
          × (ended.1.runs ≡ w.runs)
          × (ended.1.health ≡ w.health)
    unfolding collect collect_enabled conclude load
    collect_unreadable sources t source_id w spec q e u = rw (q, e, u) ((_, refl), refl, refl, refl)
