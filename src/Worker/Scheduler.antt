-- ===== src/Worker/Scheduler.antt =====
-- `JobScheduler` of apps/worker/scheduler/scheduler.py, with the table of runs. What a job does is a
-- parameter: it returns a status or raises.
pub mod Due
pub mod Retries
use trading_brain.Base.{
  ℕ, zero, suc, ◌+◌, ◌-◌, Bool, true, false, not, ◌&&◌, Option, none, some, List, [], ◌∷◌, ◌++◌,
  map, ltb, leb, ◌==◌, if◌then◌else◌, keep, length, sort, Dict, lookup, insert, Result, ok, err,
  ◌>>=◌,
}
use trading_brain.Worker.Schedule.{Schedule, is_due}

abbrev pub Name : Type 0
Name = ℕ

pub data JobStatus : Type 0 where
  success partial failed skipped : JobStatus

pub data JobTrigger : Type 0 where
  scheduled manual : JobTrigger

-- `JobResult`: the items processed; the details are left out.
pub record JobResult : Type 0 where
  pub status : JobStatus
  pub items_processed : ℕ

-- `JobRun`
pub record JobRun : Type 0 where
  pub job_name : Name
  pub status : JobStatus
  pub trigger : JobTrigger
  pub attempt : ℕ
  pub items_processed : ℕ
  pub started_at : ℕ
  pub finished_at : ℕ

pub data SchedulerError : Type 0 where
  already_registered unknown_job assertion_failed : SchedulerError

abbrev pub is_failed : JobStatus → Bool
is_failed JobStatus.failed = true
is_failed _ = false

-- `status.in_(("success", "partial"))`
abbrev pub counts : JobStatus → Bool
counts JobStatus.success = true
counts JobStatus.partial = true
counts _ = false

-- `JobScheduler.register`
unfoldable pub register : Name → Schedule → Dict Schedule → Result SchedulerError (Dict Schedule)
register name schedule jobs = elim (lookup name jobs) [
  | some _ ↦ err SchedulerError.already_registered
  | none ↦ ok (insert name schedule jobs)
]

-- The rows that `get_last_successful_run` selects.
abbrev pub successes : Name → List JobRun → List JobRun
successes name = keep (λ (r : JobRun). r.job_name == name && counts r.status)

-- The latest start among rows.
unfoldable pub latest : List JobRun → Option ℕ
latest [] = none
latest (r ∷ rows) = elim (latest rows) [
  | none ↦ some r.started_at
  | some t ↦ some (if ltb r.started_at t then t else r.started_at)
]

-- `get_last_successful_run(...).started_at`
abbrev pub last_success : Name → List JobRun → Option ℕ
last_success name runs = latest (successes name runs)

-- `JobScheduler.due_jobs`
unfoldable pub due_from : ℕ → List JobRun → List (Name × Schedule) → List Name
unfolding latest is_due
due_from now runs [] = []
due_from now runs ((name, schedule) ∷ jobs) =
    let rest = due_from now runs jobs in
    if is_due schedule now (last_success name runs) then name ∷ rest else rest

unfoldable pub due_jobs : ℕ → List JobRun → Dict Schedule → List Name
unfolding due_from
due_jobs now runs jobs = due_from now runs (sort (λ (j : Name × Schedule). j.0) jobs)

-- A job's answer to one attempt: what it returns, or an exception.
pub data Attempted : Type 0 where
  returned : JobResult → Attempted
  raised : Attempted

-- An exception is a failed result.
abbrev pub result_of : Attempted → JobResult
result_of (Attempted.returned r) = r
result_of Attempted.raised = record { status = JobStatus.failed; items_processed = 0 }

module _ (job : Name → ℕ → Attempted) (clock : ℕ → ℕ × ℕ) where
  -- The row of one attempt. The job's answer and the times may depend on how many runs the table has.
  abbrev pub row_of : Name → JobTrigger → ℕ → List JobRun → JobRun
  row_of name trigger attempt runs =
      let r = result_of (job name (length runs)) in
      record {
        job_name = name;
        status = r.status;
        trigger = trigger;
        attempt = attempt;
        items_processed = r.items_processed;
        started_at = (clock (length runs)).0;
        finished_at = (clock (length runs)).1;
      }

  -- The attempts from `attempt` on, of which `left` are left; `last_result` is that of the one before.
  unfoldable pub attempts :
      Name
      → JobTrigger
      → (left attempt : ℕ) → Option JobResult
      → List JobRun
      → List JobRun × Result SchedulerError JobResult
  attempts name trigger zero attempt last_result runs =
      (runs, elim last_result [ none ↦ err SchedulerError.assertion_failed | some r ↦ ok r ])
  attempts name trigger (suc left) attempt last_result runs =
      let result = result_of (job name (length runs)) in
      let runs' = runs ++ row_of name trigger attempt runs ∷ [] in
      let retried = attempts name trigger left (attempt + 1) (some result) runs' in
      if is_failed result.status then retried else (runs', ok result)

  -- `JobScheduler.run_job`
  unfoldable pub run_job :
      Dict Schedule
      → Name
      → JobTrigger
      → (max_attempts : ℕ) → List JobRun
      → List JobRun × Result SchedulerError JobResult
  unfolding attempts
  run_job jobs name trigger max_attempts runs = elim (lookup name jobs) [
    | none ↦ (runs, err SchedulerError.unknown_job)
    | some _ ↦ attempts name trigger max_attempts 1 none runs
  ]

  -- `JobScheduler.run_due`: what is due is decided before the first job runs, and a raised error ends
  -- the list.
  unfoldable pub run_all :
      Dict Schedule
      → (max_attempts : ℕ) → List Name
      → List JobRun
      → List JobRun × Result SchedulerError (List JobResult)
  run_all jobs max_attempts [] runs = (runs, ok [])
  run_all jobs max_attempts (name ∷ names) runs =
      let (runs1, one) = run_job jobs name JobTrigger.scheduled max_attempts runs in
      let (runs2, rest) = run_all jobs max_attempts names runs1 in
      elim one [ err e ↦ (runs1, err e) | ok r ↦ (runs2, rest >>= λ rs. ok (r ∷ rs)) ]

  unfoldable pub run_due :
      Dict Schedule
      → (now max_attempts : ℕ) → List JobRun
      → List JobRun × Result SchedulerError (List JobResult)
  unfolding run_all
  run_due jobs now max_attempts runs = run_all jobs max_attempts (due_jobs now runs jobs) runs
