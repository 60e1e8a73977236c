-- ===== src/Worker/Scheduler/Retries.antt =====
-- How often a job is tried, and what is recorded of it.
use trading_brain.Base.{
  ℕ, zero, suc, ◌+◌, ◌≤◌, ◌≡◌, refl, ◌∙◌, true, Option, none, some, List, [], ◌∷◌, ◌++◌, arith,
  length, length-append, append_assoc, subst, Dict, lookup, Result, ok, if_ind,
}
use trading_brain.Worker.Schedule.{Schedule}
use trading_brain.Worker.Scheduler.{
  Name, JobStatus, JobTrigger, JobResult, JobRun, SchedulerError, Attempted, is_failed, result_of,
  row_of, attempts, run_job,
}

-- A row holds a result.
abbrev pub Holds : JobRun → JobResult → Type 0
Holds r result = (r.status ≡ result.status) × (r.items_processed ≡ result.items_processed)

-- The rows of the attempts of one run of a job, the first of them after `n` others: each is of that
-- job, numbered from `attempt` on, and holds what the job gave in that attempt, `try` of its place; all
-- are failures but for the last one, and `result` is what the job gave in the last.
abbrev pub IsTrail : (ℕ → JobResult) → Name → JobTrigger → JobResult → ℕ → ℕ → List JobRun → Type 0
IsTrail try name trigger result attempt n [] = Unit
IsTrail try name trigger result attempt n (r ∷ rows) =
    (r.job_name ≡ name)
    × (r.trigger ≡ trigger)
    × (r.attempt ≡ attempt)
    × Holds r (try n)
    × (elim rows [ [] ↦ result ≡ try n | _ ↦ r.status ≡ JobStatus.failed ])
    × IsTrail try name trigger result (attempt + 1) (n + 1) rows

-- Between 1 and `left` rows are added, the trail of the attempts, and a failure is returned only when
-- every attempt is used.
pub record IsRun (try : ℕ → JobResult) (name : Name) (trigger : JobTrigger) (left attempt : ℕ)
    (runs : List JobRun) (o : List JobRun × Result SchedulerError JobResult) : Type 0 where
  pub result : JobResult
  pub rows : List JobRun
  pub returned : o.1 ≡ ok result
  pub appended : o.0 ≡ runs ++ rows
  pub at_least_one : 1 ≤ length rows
  pub bounded : length rows ≤ left
  pub trail : IsTrail try name trigger result attempt (length runs) rows
  pub exhausted : is_failed result.status ≡ true → length rows ≡ left

is_failed-eq : (s : JobStatus) → is_failed s ≡ true → s ≡ JobStatus.failed
is_failed-eq s h = ground (arith, h)

IsTrail-next :
    (try : ℕ → JobResult) (name : Name) (trigger : JobTrigger) (result : JobResult) (attempt n : ℕ)
    (r : JobRun) (rows : List JobRun)
    → r.job_name ≡ name
    → r.trigger ≡ trigger
    → r.attempt ≡ attempt
    → Holds r (try n)
    → r.status ≡ JobStatus.failed
    → 1 ≤ length rows
    → IsTrail try name trigger result (attempt + 1) (n + 1) rows
    → IsTrail try name trigger result attempt n (r ∷ rows)
IsTrail-next try name trigger result attempt n r [] a b c held d some_rows h =
    absurd (omega (arith, some_rows))
IsTrail-next try name trigger result attempt n r (q ∷ rows) a b c held d some_rows h =
    (a, b, c, held, d, h)

module _ (job : Name → ℕ → Attempted) (clock : ℕ → ℕ × ℕ) where
  -- What a job gives in the attempt that finds `n` rows in the table.
  abbrev pub tries : Name → ℕ → JobResult
  tries name n = result_of (job name n)

  one_row :
      (name : Name) (trigger : JobTrigger) (left attempt : ℕ) (runs : List JobRun)
      (o : List JobRun × Result SchedulerError JobResult)
      → let r = result_of (job name (length runs)) in
        o.1 ≡ ok r
        → o.0 ≡ runs ++ row_of job clock name trigger attempt runs ∷ []
        → (is_failed r.status ≡ true → 1 ≡ left)
        → 1 ≤ left
        → IsRun (tries name) name trigger left attempt runs o
  one_row name trigger left attempt runs o returned appended failed some_left = record {
    result = result_of (job name (length runs));
    rows = row_of job clock name trigger attempt runs ∷ [];
    returned = returned;
    appended = appended;
    at_least_one = omega arith;
    bounded = omega (arith, some_left);
    trail = (refl, refl, refl, (refl, refl), refl, tt);
    exhausted = failed;
  }

  attempts-IsRun :
      (name : Name) (trigger : JobTrigger) (left attempt : ℕ) (last : Option JobResult)
      (runs : List JobRun)
      → IsRun
          (tries name)
          name
          trigger
          (suc left)
          attempt
          runs
          (attempts job clock name trigger (suc left) attempt last runs)
  unfolding attempts
  attempts-IsRun name trigger zero attempt last runs =
      one_row name trigger 1 attempt runs (attempts job clock name trigger 1 attempt last runs)
        (ground arith) (ground arith) (λ _. refl) (omega arith)
  attempts-IsRun name trigger (suc left) attempt last runs =
      let result = result_of (job name (length runs)) in
      let row = row_of job clock name trigger attempt runs in
      let tried = attempts-IsRun name trigger left (attempt + 1) (some result) (runs ++ row ∷ []) in
      if_ind (IsRun (tries name) name trigger (suc (suc left)) attempt runs)
        (is_failed result.status)
        (λ failed. record {
          result = tried.result;
          rows = row ∷ tried.rows;
          returned = tried.returned;
          appended = tried.appended ∙ append_assoc runs (row ∷ []) tried.rows;
          at_least_one = omega arith;
          bounded = omega (arith, tried.bounded);
          trail =
              IsTrail-next (tries name) name trigger tried.result attempt (length runs) row
                tried.rows refl refl refl (refl, refl) (is_failed-eq row.status failed)
                tried.at_least_one
                (subst
                  (λ n. IsTrail (tries name) name trigger tried.result (attempt + 1) n tried.rows)
                  (length-append runs (row ∷ [])) tried.trail);
          exhausted = λ all. omega (arith, tried.exhausted all);
        })
        (λ done.
          one_row name trigger (suc (suc left)) attempt runs (runs ++ row ∷ [], ok result) refl refl
            (λ failed. ground (arith, failed, done)) (omega arith))

  -- If `max_attempts` is at least 1, a registered job is tried at least once and at most `max_attempts`
  -- times, until it does not fail; each try leaves one row, numbered from 1, at the end of the table, with
  -- the status and the items of what the job gave in that try; only the last can be other than a
  -- failure; and what the run returns is what the job gave in the last try.
  pub run_job-IsRun :
      (jobs : Dict Schedule) (name : Name) (trigger : JobTrigger) (max_attempts : ℕ)
      (runs : List JobRun) {s : Schedule}
      → lookup name jobs ≡ some s
      → 1 ≤ max_attempts
      → IsRun
          (tries name)
          name
          trigger
          max_attempts
          1
          runs
          (run_job job clock jobs name trigger max_attempts runs)
  unfolding run_job
  run_job-IsRun jobs name trigger zero runs found some_tries = absurd (omega (arith, some_tries))
  run_job-IsRun jobs name trigger (suc left) runs found some_tries =
      rw (found, run_job) (attempts-IsRun name trigger left 1 none runs)
