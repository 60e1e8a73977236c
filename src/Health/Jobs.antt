-- ===== src/Health/Jobs.antt =====
-- `job_checks` of observability/checks.py, on the table of runs that the scheduler writes.
pub mod Failing
use trading_brain.Base.{
  take, ℕ, zero, suc, ◌+◌, ◌*◌, ◌≡◌, refl, sym, ◌∙◌, arith, Bool, true, false, not, ◌&&◌, ◌||◌,
  Option, none, some, List, [], ◌∷◌, leb, ltb, ◌==◌, if◌then◌else◌, keep, any, Dict, lookup, insert,
  Bool-cases, inl, inr,
}
use trading_brain.Worker.Scheduler.{Name, JobStatus, JobRun, is_failed}
use trading_brain.Health.Status.{Status, CheckName, Check, check_of}
use trading_brain.Health.Checks.{age_days}

-- `order_by(JobRun.started_at.desc())`: before the first that did not start later.
unfoldable pub place : JobRun → List JobRun → List JobRun
place r [] = r ∷ []
place r (q ∷ runs) =
    let rest = place r runs in if ltb r.started_at q.started_at then q ∷ rest else r ∷ q ∷ runs

unfoldable pub newest_first : List JobRun → List JobRun
unfolding place
newest_first [] = []
newest_first (r ∷ runs) = place r (newest_first runs)

-- `latest_by_job.setdefault(run.job_name, run)` over the runs.
unfoldable pub latest_by_job : Dict JobRun → List JobRun → Dict JobRun
latest_by_job d [] = d
latest_by_job d (r ∷ runs) =
    latest_by_job (elim (lookup r.job_name d) [ none ↦ insert r.job_name r d | some q ↦ d ]) runs

abbrev pub is_failing : Name × JobRun → Bool
is_failing (name, run) = is_failed run.status

abbrev pub is_recent : ℕ → JobRun → Bool
is_recent now r = leb now (r.started_at + 48 * 3_600_000_000)

-- The status of the failures among the runs, the newest first.
unfoldable pub failure_status : ℕ → List JobRun → Status
unfolding latest_by_job
failure_status now runs =
    if any is_failing (latest_by_job [] runs)
    then Status.unavailable
    else if any (λ (r : JobRun). is_failed r.status) (keep (is_recent now) runs)
    then Status.degraded
    else Status.healthy

unfoldable pub checks_of : ℕ → List JobRun → List Check
unfolding failure_status age_days
checks_of now [] = check_of CheckName.scheduler Status.degraded ∷ []
checks_of now (r ∷ runs) =
    check_of CheckName.scheduler
      (if ltb 200 (age_days now r.started_at) then Status.degraded else Status.healthy)
    ∷ check_of CheckName.job_failures (failure_status now (r ∷ runs))
    ∷ []

-- `job_checks`
unfoldable pub job_checks : ℕ → List JobRun → List Check
unfolding newest_first checks_of
job_checks now table = checks_of now (take (newest_first table) 200)
