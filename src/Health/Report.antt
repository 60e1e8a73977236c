-- ===== src/Health/Report.antt =====
-- `full_health` of observability/checks.py.
use trading_brain.Base.{ℕ, ◌≡◌, arith, List, ◌++◌}
use trading_brain.Quant.Floats.{Floats}
use trading_brain.Worker.Scheduler.{JobRun}
use trading_brain.Health.Status.{
  Status, Check, aggregate, aggregate_lem, aggregate-append, worse, worst_of,
}
use trading_brain.Health.Checks.{Settings, Probes, Rows, dependency_checks, data_checks}
use trading_brain.Health.Jobs.{job_checks}

pub record HealthReport : Type 0 where
  pub status : Status
  pub dependencies : Status
  pub data_status : Status
  pub jobs : Status
  pub checks : List Check

module _ (num : Floats) where
  unfoldable pub full_health : ℕ → Settings → Probes → Rows num → List JobRun → HealthReport
  unfolding dependency_checks data_checks job_checks aggregate
  full_health now settings probes rows runs =
      let dependencies = dependency_checks settings probes in
      let data_checks_now = data_checks num now rows in
      let jobs = job_checks now runs in
      let everything = dependencies ++ (data_checks_now ++ jobs) in
      record {
        status = aggregate everything;
        dependencies = aggregate dependencies;
        data_status = aggregate data_checks_now;
        jobs = aggregate jobs;
        checks = everything;
      }

  -- The status that is reported is the worst of the checks that are listed, and the worst of the statuses
  -- of the three groups: nothing that is broken is averaged away.
  pub full_health-status :
      (now : ℕ) (settings : Settings) (probes : Probes) (rows : Rows num) (runs : List JobRun)
      → let h = full_health now settings probes rows runs in
        (h.status ≡ worst_of h.checks)
        × (h.status ≡ worse h.dependencies (worse h.data_status h.jobs))
  unfolding full_health
  full_health-status now settings probes rows runs = (
    aggregate_lem
        (dependency_checks settings probes ++ (data_checks num now rows ++ job_checks now runs)),
    ground (
      arith,
      aggregate-append (dependency_checks settings probes)
          (data_checks num now rows ++ job_checks now runs),
      aggregate-append (data_checks num now rows) (job_checks now runs),
    ),
  )
