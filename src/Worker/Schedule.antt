-- ===== src/Worker/Schedule.antt =====
-- `Schedule` of apps/worker/scheduler/schedule.py. Times are microseconds of UTC, so that aligning a
-- stored time with the reference changes nothing.
use trading_brain.Base.{
  ℕ, ◌-◌, ◌/◌, ◌%◌, Bool, true, false, Option, none, some, ltb, leb, if◌then◌else◌,
}

abbrev pub day : ℕ
day = 86400000000

-- `.date()` and `.time()`
abbrev pub date : ℕ → ℕ
date t = t / day

abbrev pub time_of_day : ℕ → ℕ
time_of_day t = t % day

-- A daily schedule may have no time, and an interval no length.
pub data Schedule : Type 0 where
  daily interval : Option ℕ → Schedule
  manual : Schedule

abbrev too_early : Option ℕ → ℕ → Bool
too_early none now = false
too_early (some at) now = ltb (time_of_day now) at

-- The difference `now - last` of two times, compared with a length: a time to come is never that long
-- ago.
abbrev has_passed : ℕ → ℕ → ℕ → Bool
has_passed every last now = if leb last now then leb every (now - last) else false

-- `Schedule.is_due`. An interval's length is positive.
unfoldable pub is_due : Schedule → ℕ → Option ℕ → Bool
is_due Schedule.manual now last = false
is_due (Schedule.interval none) now last = false
is_due (Schedule.interval (some every)) now none = true
is_due (Schedule.interval (some every)) now (some last) = has_passed every last now
is_due (Schedule.daily at) now none = if too_early at now then false else true
is_due (Schedule.daily at) now (some last) =
    if too_early at now then false else ltb (date last) (date now)
