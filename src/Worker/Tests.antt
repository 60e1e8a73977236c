-- ===== src/Worker/Tests.antt =====
-- The scheduler on concrete inputs.
use trading_brain.Base.{
  ℕ, ◌+◌, ◌*◌, ◌≡◌, refl, arith, not, ◌&&◌, some, List, [], ◌∷◌, leb, ◌==◌, if◌then◌else◌, any,
  Dict,
}
use trading_brain.Worker.Schedule.{Schedule, is_due, date, time_of_day}
use trading_brain.Worker.Scheduler.{
  Name, JobStatus, JobTrigger, JobRun, Attempted, run_job, last_success, successes,
}
use trading_brain.Worker.Scheduler.Due.{is_since, is_due-daily}
use trading_brain.Worker.Scheduler.Retries.{IsRun, tries, run_job-IsRun}

abbrev runs : List JobRun
runs =
    record {
      job_name = 4;
      status = JobStatus.success;
      trigger = JobTrigger.scheduled;
      attempt = 1;
      items_processed = 12;
      started_at = 86400000000 + 5;
      finished_at = 86400000000 + 9;
    }
    ∷ []

is_due-daily_example :
    is_due (Schedule.daily (some 3)) (2 * 86400000000 + 7) (last_success 4 runs)
    ≡ leb 3 (time_of_day (2 * 86400000000 + 7))
      && not (any (is_since (date (2 * 86400000000 + 7))) (successes 4 runs))
is_due-daily_example = is_due-daily 3 (2 * 86400000000 + 7) 4 runs

-- A job that fails until the table has two rows.
abbrev job : Name → ℕ → Attempted
job name n =
    if n == 2
    then Attempted.returned (record { status = JobStatus.success; items_processed = 1 })
    else Attempted.raised

abbrev clock : ℕ → ℕ × ℕ
clock n = (n * 10, n * 10 + 1)

abbrev jobs : Dict Schedule
jobs = (4, Schedule.daily (some 3)) ∷ []

run_job-IsRun_example :
    IsRun
      (tries job clock 4)
      4
      JobTrigger.manual
      3
      1
      runs
      (run_job job clock jobs 4 JobTrigger.manual 3 runs)
run_job-IsRun_example = run_job-IsRun job clock jobs 4 JobTrigger.manual 3 runs refl (omega arith)
