-- ===== src/Scheduler/Jobs/Due.antt =====
-- When a job is due again after `run_job`.
use invest.Base.{
  ℕ, ◌+◌, ◌*◌, ◌≡◌, ◌≢◌, ◌⊎◌, refl, inl, inr, Bool, Option, some, String, [], leb, if◌then◌else◌,
  str_eq, Bool-cases, ap, ◌∙◌, List, sym, subst,
}
use invest.Base.Dict
use invest.Base.Dict.{Dict, get-put, get-put_self}
use invest.Common.Errors.{mios_error, breaker_open, crash, Result, ok, err}
use invest.Common.Labels.{RunStatus, success, failed, skipped}
use invest.Common.StateStore.{StateFile, load, save, missing, unreadable, stored}
use invest.Scheduler.Breaker.{Breaker, Entry, check}
use invest.Scheduler.Retry
use invest.Scheduler.Retry.{is_mios}
use invest.Scheduler.Jobs.{
  JobSpec, JobResult, Files, Readings, minute, is_due, mark_run, conclude, guarded, dispatch,
  run_job, finish, after_update,
}

-- The last runs in a file; a file that cannot be read has none to show.
abbrev pub runs_in : StateFile ℕ → Dict ℕ
runs_in missing = []
runs_in unreadable = []
runs_in (stored d) = d

abbrev pub due_in : StateFile ℕ → ℕ → JobSpec → Bool
due_in file now job = is_due now job (Dict.get job.job_id (runs_in file))

-- The file has the run of `job` at `mark`, and for the jobs of other ids what it had.
abbrev pub IsMarked : JobSpec → ℕ → StateFile ℕ → StateFile ℕ → Type 0
IsMarked job mark before after =
    (now : ℕ) (other : JobSpec)
    → due_in after now other ≡ (
        if str_eq job.job_id other.job_id
        then leb (mark + other.interval_minutes * minute) now
        else due_in before now other)

-- A call that returns and does not skip the job has marked it.
abbrev Marks : JobSpec → ℕ → Files → Result JobResult × Files → Type 0
Marks job mark files (ok r, files') =
    (r.status ≡ skipped) ⊎ IsMarked job mark files.runs files'.runs
Marks job mark files (err e, files') = Unit

put-IsMarked :
    (job : JobSpec) (mark : ℕ) (d : Dict ℕ) (before : StateFile ℕ)
    → runs_in before ≡ d
    → IsMarked job mark before (stored (Dict.put job.job_id mark d))
unfolding is_due
put-IsMarked job mark d before e now other = elim (Bool-cases (str_eq job.job_id other.job_id)) [
  | inl same ↦ rw (get-put job.job_id other.job_id mark d, same)
  | inr ne ↦ rw (get-put job.job_id other.job_id mark d, ne, e)
]

finish-Marks :
    (job : JobSpec) (mark : ℕ) (status : RunStatus) (files : Files)
    → Marks job mark files (finish job mark status files)
unfolding mark_run load save
finish-Marks job mark status files = go files.runs refl
  where
    go :
        (runs : StateFile ℕ)
        → files.runs ≡ runs
        → Marks job mark files (finish job mark status (record files { runs = runs }))
    go missing e = inr (put-IsMarked job mark [] files.runs (ap runs_in e))
    go unreadable e = tt
    go (stored d) e = inr (put-IsMarked job mark d files.runs (ap runs_in e))

after_update-Marks :
    (job : JobSpec) (mark : ℕ) (status : RunStatus) (r : Result (StateFile Entry)) (files : Files)
    → Marks job mark files (after_update r (finish job mark status) files)
after_update-Marks job mark status (ok circuits) files =
    finish-Marks job mark status (record files { circuits = circuits })
after_update-Marks job mark status (err e) files = tt

module _ {Seconds : Type 0} (b : Breaker) (jittered : Seconds → ℕ → Seconds)
    (delays : List Seconds) where
  conclude-Marks :
      (job : JobSpec) (t : Readings) (r : Result (Unit {0})) (files : Files)
      → Marks job t.at_mark files (conclude b jittered delays job t r files)
  unfolding conclude
  conclude-Marks job t (ok _) files = after_update-Marks job t.at_mark success _ files
  conclude-Marks job t (err (mios_error m)) files = after_update-Marks job t.at_mark failed _ files
  conclude-Marks job t (err (breaker_open m)) files =
      after_update-Marks job t.at_mark failed _ files
  conclude-Marks job t (err (crash m)) files = tt

  guarded-Marks :
      (job : JobSpec) (t : Readings) (fn : ℕ → Result (Unit {0})) (c : Result (Unit {0}))
      (files : Files)
      → Marks job t.at_mark files (guarded b jittered delays job t fn c files)
  unfolding guarded
  guarded-Marks job t fn (ok _) files = conclude-Marks job t (Retry.run jittered fn delays).0 files
  guarded-Marks job t fn (err (breaker_open key)) files = inl refl
  guarded-Marks job t fn (err (mios_error m)) files = tt
  guarded-Marks job t fn (err (crash m)) files = tt

  dispatch-Marks :
      (job : JobSpec) (t : Readings) (fn : JobSpec → ℕ → Result (Unit {0})) (files : Files)
      → Marks job t.at_mark files (dispatch b jittered delays job t (some fn) files)
  unfolding dispatch
  dispatch-Marks job t fn files =
      guarded-Marks job t (fn job) (check b files.circuits job.job_id t.at_check) files

  -- A run of a job with a registered task that returns a result other than `skipped`, a failure
  -- too, takes up the job's slot: the job is due again exactly from its interval after the reading
  -- of `_mark_run` on. Whether a job of another id is due is as it was.
  pub run_job-IsMarked :
      (tasks : String → Option (JobSpec → ℕ → Result (Unit {0})))
      (fn : JobSpec → ℕ → Result (Unit {0})) (job : JobSpec) (t : Readings) (files : Files)
      (r : JobResult) (files' : Files)
      → tasks job.task ≡ some fn
      → run_job b jittered delays tasks job t files ≡ (ok r, files')
      → r.status ≢ skipped
      → IsMarked job t.at_mark files.runs files'.runs
  unfolding run_job
  run_job-IsMarked tasks fn job t files r files' known e ran =
      let q : dispatch b jittered delays job t (some fn) files ≡ (ok r, files') =
        ap (λ o. dispatch b jittered delays job t o files) (sym known) ∙ e in
      elim (subst (Marks job t.at_mark files) q (dispatch-Marks job t fn files)) [
        | inl s ↦ absurd (ran s)
        | inr m ↦ m
      ]
