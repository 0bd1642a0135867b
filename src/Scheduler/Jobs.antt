-- ===== src/Scheduler/Jobs.antt =====
-- mios/scheduler/jobs.py: the jobs that are due, each run behind its breaker with retries.
pub mod Due
pub mod Outcomes
use invest.Base.{
  ℕ, ◌+◌, ◌*◌, Bool, true, false, Option, none, some, String, List, [], ◌∷◌, leb, filter, is_some,
  ◌&&◌, if◌then◌else◌,
}
use invest.Base.Dict
use invest.Base.Dict.{Dict}
use invest.Common.Errors.{Raised, mios_error, breaker_open, crash, Result, ok, err, ◌>>=◌}
use invest.Common.Labels.{RunStatus, success, failed, skipped}
use invest.Common.StateStore.{StateFile, load, save}
use invest.Scheduler.Breaker.{Breaker, Entry, check, record_failure, record_success}
use invest.Scheduler.Retry
use invest.Scheduler.Retry.{is_mios}

pub record JobSpec : Type 0 where
  pub job_id : String
  pub task : String
  pub source_id : Option String
  pub interval_minutes : ℕ
  pub enabled : Bool

pub record JobResult : Type 0 where
  pub job_id : String
  pub status : RunStatus

-- What a registered task's calls, in order, return or raise.
abbrev pub TaskFn : Type 0
TaskFn = JobSpec → ℕ → Result (Unit {0})

-- `self._tasks[task] = fn`
unfoldable pub register : Dict TaskFn → String → TaskFn → Dict TaskFn
register tasks task fn = Dict.put task fn tasks

-- The two state files; `runs` has the last run of each job (the key `job.<id>.last_run` is the id).
pub record Files : Type 0 where
  pub runs : StateFile ℕ
  pub circuits : StateFile Entry

-- The clock's readings within one `run_job`: at the breaker's check, at a failure, at `_mark_run`.
pub record Readings : Type 0 where
  pub at_check : ℕ
  pub at_failure : ℕ
  pub at_mark : ℕ

abbrev pub minute : ℕ
minute = 60000000

-- `last is None or now - last >= timedelta(minutes=interval_minutes)`
unfoldable pub is_due : ℕ → JobSpec → Option ℕ → Bool
is_due now job none = true
is_due now job (some last) = leb (last + job.interval_minutes * minute) now

unfoldable pub due_from : ℕ → Dict ℕ → List JobSpec → List JobSpec
unfolding is_due
due_from now runs jobs =
    filter (λ job. job.enabled && is_due now job (Dict.get job.job_id runs)) jobs

unfoldable pub due_jobs : StateFile ℕ → ℕ → List JobSpec → Result (List JobSpec)
unfolding load due_from
due_jobs file now jobs = do runs ← load file; ok (due_from now runs jobs)

-- `_mark_run`
unfoldable pub mark_run : StateFile ℕ → JobSpec → ℕ → Result (StateFile ℕ)
unfolding load save
mark_run file job now = do runs ← load file; ok (save (Dict.put job.job_id now runs))

-- A call that changes the files, which keep what was written before a raise.
abbrev pub Action : Type 0 → Type 0
Action A = Files → Result A × Files

abbrev pub finish : JobSpec → ℕ → RunStatus → Action JobResult
finish job now status files = elim (mark_run files.runs job now) [
  | ok runs ↦ (ok (record { job_id = job.job_id; status = status }), record files { runs = runs })
  | err e ↦ (err e, files)
]

abbrev pub after_update :
    Result (StateFile Entry) → (Files → Result JobResult × Files) → Action JobResult
after_update (ok circuits) k files = k (record files { circuits = circuits })
after_update (err e) k files = (err e, files)

abbrev pub prepend : JobResult → Result (List JobResult) × Files → Result (List JobResult) × Files
prepend r (ok rs, files) = (ok (r ∷ rs), files)
prepend r (err e, files) = (err e, files)

abbrev pub after_job :
    Result JobResult × Files → Action (List JobResult) → Result (List JobResult) × Files
after_job (ok r, files) rest = prepend r (rest files)
after_job (err e, files) rest = (err e, files)

abbrev pub after_due :
    Result (List JobSpec) → (List JobSpec → Action (List JobResult)) → Action (List JobResult)
after_due (ok due) run files = run due files
after_due (err e) run files = (err e, files)

module _ {Seconds : Type 0} (b : Breaker) (jittered : Seconds → ℕ → Seconds)
    (delays : List Seconds) where
  -- What follows the retries: `except MiosError`, or success. Another exception ends the run.
  unfoldable pub conclude : JobSpec → Readings → Result (Unit {0}) → Action JobResult
  unfolding mark_run
  conclude job t (ok _) files =
      after_update (record_success files.circuits job.job_id) (finish job t.at_mark success) files
  conclude job t (err e) files =
      if is_mios e
      then after_update (record_failure b files.circuits job.job_id t.at_failure)
          (finish job t.at_mark failed) files
      else (err e, files)

  -- What follows the breaker's check: `except BreakerOpenError`, or the task with its retries. Any
  -- other exception of the check ends the run.
  unfoldable pub guarded :
      JobSpec → Readings → (ℕ → Result (Unit {0})) → Result (Unit {0}) → Action JobResult
  unfolding conclude
  guarded job t fn (ok _) files = conclude job t (Retry.run jittered fn delays).0 files
  guarded job t fn (err (breaker_open key)) files =
      (ok (record { job_id = job.job_id; status = skipped }), files)
  guarded job t fn (err (mios_error m)) files = (err (mios_error m), files)
  guarded job t fn (err (crash m)) files = (err (crash m), files)

  -- `self._tasks.get(job.task)`, and what follows it.
  unfoldable pub dispatch :
      JobSpec → Readings → Option (JobSpec → ℕ → Result (Unit {0})) → Action JobResult
  unfolding guarded
  dispatch job t none files = (ok (record { job_id = job.job_id; status = failed }), files)
  dispatch job t (some fn) files =
      guarded job t (fn job) (check b files.circuits job.job_id t.at_check) files

  -- `run_job`, where `tasks` gives the registered function of a task's name, by the results of its
  -- calls in order.
  unfoldable pub run_job :
      (String → Option (JobSpec → ℕ → Result (Unit {0}))) → JobSpec → Readings → Action JobResult
  unfolding dispatch
  run_job tasks job t files = dispatch job t (tasks job.task) files

  -- The comprehension of `run_due`: an exception that leaves `run_job` ends it.
  unfoldable pub run_all :
      (String → Option (JobSpec → ℕ → Result (Unit {0})))
      → List JobSpec
      → (ℕ → Readings)
      → ℕ
      → Action (List JobResult)
  unfolding run_job
  run_all tasks [] readings n files = (ok [], files)
  run_all tasks (job ∷ jobs) readings n files =
      after_job (run_job tasks job (readings n) files) (run_all tasks jobs readings (n + 1))

  unfoldable pub run_due :
      (String → Option (JobSpec → ℕ → Result (Unit {0})))
      → List JobSpec
      → ℕ
      → (ℕ → Readings)
      → Action (List JobResult)
  unfolding run_all due_jobs
  run_due tasks jobs now readings files =
      after_due (due_jobs files.runs now jobs) (λ due. run_all tasks due readings 0) files
