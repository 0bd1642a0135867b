-- ===== src/Tests/Scheduling.antt =====
-- Runs of mios/scheduler.
use invest.Base.{
  ℕ, ◌+◌, ◌≤◌, ◌<◌, ◌≡◌, ◌↔◌, refl, true, Option, some, String, List, [], ◌∷◌, arith, str_eq, ltb,
  if◌then◌else◌, subst,
}
use invest.Base.Dict
use invest.Base.Dict.{Dict}
use mathlib.Core.Option.{some-injective}
use invest.Common.Errors.{Result, ok, err, mios_error, breaker_open}
use invest.Common.Labels.{failed}
use invest.Common.StateStore.{StateFile, missing, stored}
use invest.Scheduler.Breaker.{
  Breaker, Entry, entry, check, record_success, record_failure, fresh_entry,
}
use invest.Scheduler.Breaker.Laws.{
  fail_all, IsCounted, entry_in, fail_all-IsCounted, check_refuses, entry-record_success,
}
use invest.Scheduler.Retry
use invest.Scheduler.Retry.{EndsAfter, run-EndsAfter}
use invest.Scheduler.RateLimit.{acquire, acquire_spaces}
use invest.Scheduler.Jobs.{JobSpec, JobResult, Files, Readings, run_job, run_due, due_jobs}
use invest.Scheduler.Jobs.Outcomes.{Returns, DoesNotCrash, AreOf, run_due-Returns}
use invest.Scheduler.Jobs.Due.{IsMarked, run_job-IsMarked}

abbrev breaker : Breaker
breaker = record { failure_threshold = 3; cooldown = 100 }

fail_all-IsCounted_example :
    (file : StateFile Entry) × (fail_all breaker missing "collect" (5 ∷ 6 ∷ 9 ∷ []) ≡ ok file)
    × IsCounted breaker (entry_in file "collect") 3 (some 9)
fail_all-IsCounted_example = fail_all-IsCounted breaker "collect" (5 ∷ 6 ∷ 9 ∷ [])

abbrev circuits : Dict Entry
circuits = ("collect", record { failures = 3; opened_at = some 9 }) ∷ []

check_refuses_run :
    (check breaker (stored circuits) "collect" 50 ≡ err (breaker_open "collect"))
    ↔ ((opened : ℕ) × ((entry circuits "collect").opened_at ≡ some opened) × (50 < opened + 100))
check_refuses_run = check_refuses breaker circuits "collect" 50

entry-record_success_run :
    (file : StateFile Entry) × (record_success (stored circuits) "collect" ≡ ok file)
    × (entry_in file "report"
        ≡ (if str_eq "collect" "report" then fresh_entry else entry circuits "report"))
entry-record_success_run = entry-record_success circuits "collect" "report"

abbrev plain : ℕ → ℕ → ℕ
plain delay draw = delay

-- A task whose first two calls fail.
abbrev flaky : ℕ → Result (Unit {0})
flaky n = if ltb n 2 then err (mios_error "down") else ok tt

run-EndsAfter_example :
    (retries : ℕ) × EndsAfter plain flaky 0
      (60 ∷ 300 ∷ 1800 ∷ [])
      (Retry.run plain flaky (60 ∷ 300 ∷ 1800 ∷ []))
      retries
run-EndsAfter_example = run-EndsAfter plain flaky (60 ∷ 300 ∷ 1800 ∷ [])

flaky-run : Retry.run plain flaky (60 ∷ 300 ∷ 1800 ∷ []) ≡ (ok tt, 60 ∷ 300 ∷ [])
unfolding Retry.run
flaky-run = refl

abbrev uses : Dict ℕ
uses = ("src_fred", 100) ∷ []

acquire_spaces_example :
    (used : ℕ) × (Dict.get "src_fred" (acquire uses "src_fred" 30 110 (λ waited. 110 + waited)).0
      ≡ some used)
    × (100 + 30 ≤ used)
    × ((acquire uses "src_fred" 30 110 (λ waited. 110 + waited)).1 ≤ 30)
unfolding Dict.get
acquire_spaces_example =
    acquire_spaces uses "src_fred" 30 110 100 (λ waited. 110 + waited) refl (omega arith)
      (λ waited. omega arith)

abbrev collect_job : JobSpec
collect_job = record {
  job_id = "collect";
  task = "collect";
  source_id = some "src_fred";
  interval_minutes = 60;
  enabled = true;
}

abbrev tasks : String → Option (JobSpec → ℕ → Result (Unit {0}))
tasks task = some (λ job n. err (mios_error "down"))

abbrev readings : ℕ → Readings
readings n = record { at_check = 7; at_failure = 8; at_mark = 9 }

abbrev no_files : Files
no_files = record { runs = missing; circuits = missing }

tasks_do_not_crash :
    (task : String) (fn : JobSpec → ℕ → Result (Unit {0})) (job : JobSpec)
    → tasks task ≡ some fn
    → DoesNotCrash (Retry.run plain (fn job) (60 ∷ [])).0
unfolding Retry.run
tasks_do_not_crash task fn job e =
    subst (λ g. DoesNotCrash (Retry.run plain (g job) (60 ∷ [])).0) (some-injective _ _ e) tt

run_due-Returns_example :
    (due : List JobSpec) × (due_jobs missing 7 (collect_job ∷ []) ≡ ok due)
    × Returns
        (AreOf due)
        (run_due breaker plain (60 ∷ []) tasks (collect_job ∷ []) 7 readings no_files)
run_due-Returns_example =
    run_due-Returns breaker plain (60 ∷ []) tasks tasks_do_not_crash (collect_job ∷ []) 7 readings
      no_files (record { runs = tt; circuits = tt })

abbrev failed_run : Result JobResult × Files
failed_run = run_job breaker plain (60 ∷ []) tasks collect_job (readings 0) no_files

abbrev collect_failed : JobResult
collect_failed = record { job_id = "collect"; status = failed }

failed_run_ends : failed_run ≡ (ok collect_failed, failed_run.1)
unfolding run_job Retry.run check record_failure Dict.get
failed_run_ends = refl

run_job-IsMarked_example : IsMarked collect_job 9 missing failed_run.1.runs
run_job-IsMarked_example =
    run_job-IsMarked breaker plain (60 ∷ []) tasks (λ job n. err (mios_error "down")) collect_job
      (readings 0) no_files collect_failed failed_run.1 refl failed_run_ends (λ e. cc e)
