-- ===== src/Health/Jobs/Failing.antt =====
-- The jobs that the check calls failing are those whose newest run failed.
use trading_brain.Base.{
  ℕ, ◌≡◌, arith, Bool, true, false, not, ◌&&◌, ◌||◌, none, some, List, [], ◌∷◌, ◌==◌, if◌then◌else◌,
  keep, any, any-cong, Dict, lookup, insert, lookup-insert, Bool-cases, Option-cases, inl, inr,
}
use trading_brain.Worker.Scheduler.{Name, JobRun, is_failed}
use trading_brain.Health.Status.{Status}
use trading_brain.Health.Jobs.{latest_by_job, is_failing, is_recent, failure_status}

-- Whether the newest run of a job, which is the first of its name, failed.
abbrev pub newest_failed : Name → List JobRun → Bool
newest_failed name [] = false
newest_failed name (r ∷ runs) =
    let rest = newest_failed name runs in if r.job_name == name then is_failed r.status else rest

abbrev has_name : Name → Dict JobRun → Bool
has_name name d = elim (lookup name d) [ none ↦ false | some r ↦ true ]

any-insert :
    (r : JobRun) (d : Dict JobRun)
    → lookup r.job_name d ≡ none
    → any is_failing (insert r.job_name r d) ≡ (any is_failing d || is_failed r.status)
any-insert r [] absent = ground arith
any-insert r ((n, q) ∷ d) absent = elim (Bool-cases (r.job_name == n)) [
  | inl same ↦ ground (arith, absent, same)
  | inr other ↦ ground (arith, other, any-insert r d (ground (arith, absent, other)))
]

-- Of the runs, those of jobs that the dictionary does not have yet, where the newest one failed.
abbrev failing_but : Dict JobRun → List JobRun → JobRun → Bool
failing_but d runs q = not (has_name q.job_name d) && newest_failed q.job_name runs

failing_but-known :
    (d : Dict JobRun) (r : JobRun) (runs : List JobRun) (q : JobRun)
    → has_name r.job_name d ≡ true
    → failing_but d (r ∷ runs) q ≡ failing_but d runs q
failing_but-known d r runs q known = elim (Bool-cases (r.job_name == q.job_name)) [
  | inl same ↦ ground (arith, known, same)
  | inr other ↦ ground (arith, other)
]

failing_but-insert :
    (d : Dict JobRun) (r : JobRun) (runs : List JobRun) (q : JobRun)
    → is_failed r.status ≡ false
    → failing_but d (r ∷ runs) q ≡ failing_but (insert r.job_name r d) runs q
failing_but-insert d r runs q fine = elim (Bool-cases (r.job_name == q.job_name)) [
  | inl same ↦ ground (arith, fine, same, lookup-insert r.job_name q.job_name r d)
  | inr other ↦ ground (arith, other, lookup-insert r.job_name q.job_name r d)
]

any-latest_by_job :
    (d : Dict JobRun) (runs : List JobRun)
    → any is_failing (latest_by_job d runs) ≡ (any is_failing d || any (failing_but d runs) runs)
unfolding latest_by_job
any-latest_by_job d [] = ground arith
any-latest_by_job d (r ∷ runs) = elim (Option-cases (lookup r.job_name d)) [
  | inr (q, found) ↦
      let known : has_name r.job_name d ≡ true = ground (arith, found) in
      ground (
        arith,
        found,
        any-latest_by_job d runs,
        any-cong (failing_but d (r ∷ runs)) (failing_but d runs) runs
            (λ x. failing_but-known d r runs x known),
      )
  | inl absent ↦ elim (Bool-cases (is_failed r.status)) [
    | inl failed ↦ ground (
      arith,
      absent,
      failed,
      any-latest_by_job (insert r.job_name r d) runs,
      any-insert r d absent,
    )
    | inr fine ↦ ground (
      arith,
      absent,
      fine,
      any-latest_by_job (insert r.job_name r d) runs,
      any-insert r d absent,
      any-cong (failing_but d (r ∷ runs)) (failing_but (insert r.job_name r d) runs) runs
          (λ x. failing_but-insert d r runs x fine),
    )
  ]
]

-- Of runs in any order, the newest first, the check of failures is unavailable exactly if one of them is of
-- a job whose newest run failed, and degraded exactly if that is not so and a run of the last 48 hours
-- failed: a job that failed and then succeeded on a retry is not failing.
pub failure_status_lem :
    (now : ℕ) (runs : List JobRun)
    → failure_status now runs ≡ (
        if any (λ (r : JobRun). newest_failed r.job_name runs) runs
        then Status.unavailable
        else if any (λ (r : JobRun). is_failed r.status) (keep (is_recent now) runs)
        then Status.degraded
        else Status.healthy)
unfolding failure_status
failure_status_lem now runs = rw (any-latest_by_job [] runs) (
    ground (
      arith,
      any-cong (failing_but [] runs) (λ (r : JobRun). newest_failed r.job_name runs) runs
          (λ x. ground arith),
    ))
