-- ===== src/Scheduler/Jobs/Outcomes.antt =====
-- How `run_job` and `run_due` end, where the state files can be read and no task crashes.
use invest.Base.{
  ℕ, ◌+◌, ◌≡◌, refl, inl, inr, Option, none, some, String, List, [], ◌∷◌, map, Bool-cases, is_some,
  ap₂,
}
use invest.Base.Dict
use invest.Base.Dict.{Dict}
use invest.Common.Errors.{mios_error, breaker_open, crash, Result, ok, err}
use invest.Common.Labels.{RunStatus, success, failed}
use invest.Common.StateStore.{StateFile, load, save, missing, unreadable, stored}
use invest.Scheduler.Breaker.{
  Breaker, Entry, check, refuse, status, record_failure, record_success, closed, open_circuit,
  half_open, BreakerState,
}
use invest.Scheduler.Retry
use invest.Scheduler.Retry.{is_mios}
use invest.Scheduler.Jobs.{
  JobSpec, JobResult, Files, Readings, due_jobs, mark_run, conclude, guarded, dispatch, run_job,
  run_all, run_due, Action, finish, after_update, prepend, after_job,
}

abbrev pub IsReadable : {V : Type 0} → StateFile V → Type 0
IsReadable unreadable = ⊥
IsReadable _ = Unit

pub record AreReadable (files : Files) : Type 0 where
  pub runs : IsReadable files.runs
  pub circuits : IsReadable files.circuits

-- What a call returned: a value, and files that can be read.
abbrev pub Returns : {A : Type 0} → (A → Type 0) → Result A × Files → Type 0
Returns P (ok a, files) = P a × AreReadable files
Returns P (err e, files) = ⊥

-- Any result but an exception that is no `MiosError`.
abbrev pub DoesNotCrash : Result (Unit {0}) → Type 0
DoesNotCrash (err (crash m)) = ⊥
DoesNotCrash _ = Unit

abbrev IsOf : JobSpec → JobResult → Type 0
IsOf job r = r.job_id ≡ job.job_id

finish-Returns :
    (job : JobSpec) (now : ℕ) (status : RunStatus) (files : Files)
    → AreReadable files
    → Returns (IsOf job) (finish job now status files)
unfolding mark_run load save
finish-Returns job now status files h = go files.runs h.runs
  where
    go :
        (runs : StateFile ℕ)
        → IsReadable runs
        → Returns (IsOf job) (finish job now status (record files { runs = runs }))
    go missing r = (refl, record { runs = tt; circuits = h.circuits })
    go unreadable r = absurd r
    go (stored d) r = (refl, record { runs = tt; circuits = h.circuits })

record_failure-readable :
    (b : Breaker) (file : StateFile Entry) (key : String) (now : ℕ)
    → IsReadable file
    → (d : Dict Entry) × (record_failure b file key now ≡ ok (stored d))
unfolding record_failure load save
record_failure-readable b missing key now h = (_, refl)
record_failure-readable b unreadable key now h = absurd h
record_failure-readable b (stored d) key now h = (_, refl)

record_success-readable :
    (file : StateFile Entry) (key : String)
    → IsReadable file
    → (file' : StateFile Entry) × (record_success file key ≡ ok file') × IsReadable file'
unfolding record_success load save Dict.get
record_success-readable missing key h = (missing, refl, tt)
record_success-readable unreadable key h = absurd h
record_success-readable (stored d) key h = elim (Bool-cases (is_some (Dict.get key d))) [
  | inl e ↦ (stored (Dict.remove key d), rw e, tt)
  | inr e ↦ (stored d, rw e, tt)
]

due_jobs-readable :
    (jobs : List JobSpec) (now : ℕ) (runs : StateFile ℕ)
    → IsReadable runs
    → (due : List JobSpec) × (due_jobs runs now jobs ≡ ok due)
unfolding due_jobs load
due_jobs-readable jobs now missing h = (_, refl)
due_jobs-readable jobs now unreadable h = absurd h
due_jobs-readable jobs now (stored d) h = (_, refl)

abbrev job_id_of : JobResult → String
job_id_of r = r.job_id

abbrev job_of : JobSpec → String
job_of j = j.job_id

-- The results are those of the jobs, one for each, in order.
abbrev pub AreOf : List JobSpec → List JobResult → Type 0
AreOf jobs results = map job_id_of results ≡ map job_of jobs

module _ {Seconds : Type 0} (b : Breaker) (jittered : Seconds → ℕ → Seconds)
    (delays : List Seconds) where
  conclude_failed :
      (job : JobSpec) (t : Readings) (files : Files)
      → AreReadable files
      → Returns (IsOf job) (
          after_update
            (record_failure b files.circuits job.job_id t.at_failure)
            (finish job t.at_mark failed)
            files)
  conclude_failed job t files h =
      let (d, q) = record_failure-readable b files.circuits job.job_id t.at_failure h.circuits in
      rw q (
        finish-Returns job t.at_mark failed (record files { circuits = stored d })
          (record { runs = h.runs; circuits = tt }))

  conclude-Returns :
      (job : JobSpec) (t : Readings) (r : Result (Unit {0})) (files : Files)
      → DoesNotCrash r
      → AreReadable files
      → Returns (IsOf job) (conclude b jittered delays job t r files)
  unfolding conclude
  conclude-Returns job t (ok _) files c h =
      let (file, q, k) = record_success-readable files.circuits job.job_id h.circuits in
      rw q (
        finish-Returns job t.at_mark success (record files { circuits = file })
          (record { runs = h.runs; circuits = k }))
  conclude-Returns job t (err (mios_error m)) files c h = conclude_failed job t files h
  conclude-Returns job t (err (breaker_open m)) files c h = conclude_failed job t files h
  conclude-Returns job t (err (crash m)) files c h = absurd c

  abbrev BreakerAnswer : Result (Unit {0}) → Type 0
  BreakerAnswer (ok _) = Unit
  BreakerAnswer (err (breaker_open _)) = Unit
  BreakerAnswer (err _) = ⊥

  refuse-BreakerAnswer : (key : String) (s : BreakerState) → BreakerAnswer (refuse key s)
  refuse-BreakerAnswer key closed = tt
  refuse-BreakerAnswer key open_circuit = tt
  refuse-BreakerAnswer key half_open = tt

  check-BreakerAnswer :
      (file : StateFile Entry) (key : String) (now : ℕ)
      → IsReadable file
      → BreakerAnswer (check b file key now)
  unfolding check status load
  check-BreakerAnswer missing key now h = refuse-BreakerAnswer key _
  check-BreakerAnswer unreadable key now h = absurd h
  check-BreakerAnswer (stored d) key now h = refuse-BreakerAnswer key _

  guarded-Returns :
      (job : JobSpec) (t : Readings) (fn : ℕ → Result (Unit {0})) (c : Result (Unit {0}))
      (files : Files)
      → DoesNotCrash (Retry.run jittered fn delays).0
      → BreakerAnswer c
      → AreReadable files
      → Returns (IsOf job) (guarded b jittered delays job t fn c files)
  unfolding guarded
  guarded-Returns job t fn (ok _) files n a h =
      conclude-Returns job t (Retry.run jittered fn delays).0 files n h
  guarded-Returns job t fn (err (breaker_open key)) files n a h = (refl, h)
  guarded-Returns job t fn (err (mios_error m)) files n a h = absurd a
  guarded-Returns job t fn (err (crash m)) files n a h = absurd a

  module _ (tasks : String → Option (JobSpec → ℕ → Result (Unit {0})))
      (no_crash : (task : String) (fn : JobSpec → ℕ → Result (Unit {0})) (job : JobSpec)
        → tasks task ≡ some fn
        → DoesNotCrash (Retry.run jittered (fn job) delays).0) where
    dispatch-Returns :
        (job : JobSpec) (t : Readings) (files : Files)
        (found : Option (JobSpec → ℕ → Result (Unit {0})))
        → tasks job.task ≡ found
        → AreReadable files
        → Returns (IsOf job) (dispatch b jittered delays job t found files)
    unfolding dispatch
    dispatch-Returns job t files none e h = (refl, h)
    dispatch-Returns job t files (some fn) e h =
        guarded-Returns job t (fn job) (check b files.circuits job.job_id t.at_check) files
          (no_crash job.task fn job e)
          (check-BreakerAnswer files.circuits job.job_id t.at_check h.circuits) h

    prepend-Returns :
        (job : JobSpec) (jobs : List JobSpec) (r : JobResult)
        (rest : Result (List JobResult) × Files)
        → IsOf job r
        → Returns (AreOf jobs) rest
        → Returns (AreOf (job ∷ jobs)) (prepend r rest)
    prepend-Returns job jobs r (ok rs, files) e h = (ap₂ ◌∷◌ e h.0, h.1)
    prepend-Returns job jobs r (err x, files) e h = absurd h

    after_job-Returns :
        (job : JobSpec) (jobs : List JobSpec) (first : Result JobResult × Files)
        (rest : Action (List JobResult))
        → Returns (IsOf job) first
        → ((files : Files) → AreReadable files → Returns (AreOf jobs) (rest files))
        → Returns (AreOf (job ∷ jobs)) (after_job first rest)
    after_job-Returns job jobs (ok r, files) rest h k =
        prepend-Returns job jobs r (rest files) h.0 (k files h.1)
    after_job-Returns job jobs (err x, files) rest h k = absurd h

    run_all-Returns :
        (jobs : List JobSpec) (readings : ℕ → Readings) (n : ℕ) (files : Files)
        → AreReadable files
        → Returns (AreOf jobs) (run_all b jittered delays tasks jobs readings n files)
    unfolding run_all run_job
    run_all-Returns [] readings n files h = (refl, h)
    run_all-Returns (job ∷ jobs) readings n files h =
        after_job-Returns job jobs
          (dispatch b jittered delays job (readings n) (tasks job.task) files) _
          (dispatch-Returns job (readings n) files (tasks job.task) refl h)
          (run_all-Returns jobs readings (n + 1))

    -- Where both state files can be read and no task ends in an exception that is no `MiosError`,
    -- `run_due` returns one result for each job that is due, in the order of the configuration, and
    -- leaves files that can be read: a job that fails or is skipped does not stop the others.
    pub run_due-Returns :
        (jobs : List JobSpec) (now : ℕ) (readings : ℕ → Readings) (files : Files)
        → AreReadable files
        → (due : List JobSpec) × (due_jobs files.runs now jobs ≡ ok due)
          × Returns (AreOf due) (run_due b jittered delays tasks jobs now readings files)
    unfolding run_due
    run_due-Returns jobs now readings files h =
        let (due, e) = due_jobs-readable jobs now files.runs h.runs in
        (due, e, rw e (run_all-Returns due readings 0 files h))
