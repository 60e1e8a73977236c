-- ===== src/Worker/Scheduler/Due.antt =====
-- When a job is due, in terms of the runs on record.
use trading_brain.Base.{
  ℕ, ◌≤◌, ◌≡◌, refl, Bool, true, not, ◌&&◌, none, some, List, [], ◌∷◌, arith, ltb, leb, any,
  Option-cases, Bool-cases, inl, inr,
}
use trading_brain.Worker.Schedule.{Schedule, is_due, date, time_of_day}
use trading_brain.Worker.Scheduler.{Name, JobRun, successes, latest, last_success}

date_mono : (a b : ℕ) → a ≤ b → date a ≤ date b
date_mono a b h = omega (arith, h)

-- Whether a row lies on a date or after it.
abbrev pub is_since : ℕ → JobRun → Bool
is_since d r = leb d (date r.started_at)

latest-date :
    (d : ℕ) (rows : List JobRun)
    → (elim (latest rows) [ none ↦ true | some t ↦ ltb (date t) d ]) ≡ not (any (is_since d) rows)
unfolding latest
latest-date d [] = refl
latest-date d (r ∷ rows) = elim (Option-cases (latest rows)) [
  | inl none_later ↦ ground (arith, none_later, latest-date d rows)
  | inr (t, found) ↦ elim (Bool-cases (ltb r.started_at t)) [
    | inl older ↦
        ground (
          arith,
          found,
          older,
          latest-date d rows,
          date_mono r.started_at t (ground (arith, older)),
        )
    | inr newer ↦
        ground (
          arith,
          found,
          newer,
          latest-date d rows,
          date_mono t r.started_at (ground (arith, newer)),
        )
  ]
]

-- A daily job is due at a moment exactly if its time of day has come and none of its runs that counts
-- as done started on that day or later: it is not run again on a day on which it was done, however
-- often the worker is restarted.
pub is_due-daily :
    (at now : ℕ) (name : Name) (runs : List JobRun)
    → is_due (Schedule.daily (some at)) now (last_success name runs)
      ≡ leb at (time_of_day now) && not (any (is_since (date now)) (successes name runs))
unfolding is_due
is_due-daily at now name runs = elim (Option-cases (last_success name runs)) [
  | inl never ↦ ground (arith, never, latest-date (date now) (successes name runs))
  | inr (t, found) ↦ ground (arith, found, latest-date (date now) (successes name runs))
]
