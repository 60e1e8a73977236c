-- ===== src/Health/Tests.antt =====
-- The check of failures on concrete runs.
use trading_brain.Base.{ℕ, ◌≡◌, refl, List, [], ◌∷◌, any, keep, if◌then◌else◌}
use trading_brain.Worker.Scheduler.{JobStatus, JobTrigger, JobRun, is_failed}
use trading_brain.Health.Status.{Status}
use trading_brain.Health.Jobs.{failure_status, is_recent}
use trading_brain.Health.Jobs.Failing.{newest_failed, failure_status_lem}

abbrev run_of : ℕ → JobStatus → ℕ → JobRun
run_of name status started_at = record {
  job_name = name;
  status = status;
  trigger = JobTrigger.scheduled;
  attempt = 1;
  items_processed = 0;
  started_at = started_at;
  finished_at = started_at;
}

-- The first job failed and then succeeded.
abbrev runs : List JobRun
runs =
    run_of 1 JobStatus.success 90
    ∷ run_of 2 JobStatus.success 80
    ∷ run_of 1 JobStatus.failed 70
    ∷ []

retried_is_degraded : failure_status 100 runs ≡ Status.degraded
unfolding failure_status
retried_is_degraded = refl

failure_status_lem_example : failure_status 100 runs ≡ (
    if any (λ (r : JobRun). newest_failed r.job_name runs) runs
    then Status.unavailable
    else if any (λ (r : JobRun). is_failed r.status) (keep (is_recent 100) runs)
    then Status.degraded
    else Status.healthy)
failure_status_lem_example = failure_status_lem 100 runs
