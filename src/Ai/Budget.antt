-- ===== src/Ai/Budget.antt =====
-- `BudgetLedger` of ai/governance.py: spend in a sliding hour, a sliding day and a calendar month.
pub mod Windows
pub mod Ceiling
use trading_brain.Base.{
  ℕ, ◌+◌, ◌-◌, ◌*◌, ◌/◌, ◌%◌, Bool, true, false, ◌&&◌, ◌||◌, not, Option, none, some, List, [], ◌∷◌,
  ◌++◌, map, ltb, ◌==◌, if◌then◌else◌, keep,
}
use trading_brain.Ai.Schemas.{AiCost}

pub data BudgetState : Type 0 where
  healthy warning exceeded : BudgetState

pub data WindowName : Type 0 where
  request hour day month : WindowName

pub record BudgetVerdict : Type 0 where
  pub state : BudgetState
  pub window : Option WindowName
  pub spent : Option ℕ
  pub limit : Option ℕ

-- `BudgetVerdict.allowed`
abbrev pub allowed : BudgetVerdict → Bool
allowed v = elim v.state [ BudgetState.exceeded ↦ false | _ ↦ true ]

-- `_Window`: no duration means the calendar month.
pub record Window : Type 0 where
  pub name : WindowName
  pub duration : Option ℕ
  pub limit : ℕ
  pub entries : List (ℕ × ℕ)

-- `(now.year, now.month)` of a time in microseconds since 1970-01-01, in the Gregorian calendar,
-- counted from a March 1st that ends a cycle of 400 years.
unfoldable pub year_month : ℕ → ℕ × ℕ
year_month t =
    let days = t / 86400000000 + 719468 in
    let era = days / 146097 in
    let doe = days % 146097 in
    let yoe = (doe - doe / 1460 + doe / 36524 - doe / 146096) / 365 in
    let doy = doe - (365 * yoe + yoe / 4 - yoe / 100) in
    let mp = (5 * doy + 2) / 153 in
    (yoe + era * 400 + (if ltb mp 10 then 0 else 1), if ltb mp 10 then mp + 3 else mp - 9)

unfoldable pub same_month : ℕ → ℕ → Bool
same_month s t = ((year_month s).0 == (year_month t).0) && ((year_month s).1 == (year_month t).1)

-- `while entries and stale(entries[0]): entries.popleft()`
unfoldable pub pop_while : (ℕ → Bool) → List (ℕ × ℕ) → List (ℕ × ℕ)
pop_while stale [] = []
pop_while stale ((t, amount) ∷ rest) = if stale t then pop_while stale rest else (t, amount) ∷ rest

abbrev pub is_stale : Option ℕ → ℕ → ℕ → Bool
is_stale (some duration) now t = ltb t (now - duration)
is_stale none now t = not (same_month t now)

-- `_Window.prune`
unfoldable pub prune : ℕ → Window → Window
prune now w = record w { entries = pop_while (is_stale w.duration now) w.entries }

abbrev pub sum : List (ℕ × ℕ) → ℕ
sum [] = 0
sum ((t, amount) ∷ rest) = amount + sum rest

-- `_Window.spent`, on the window that it has pruned.
abbrev pub spent : ℕ → Window → ℕ
spent now w = sum (prune now w).entries

-- `warn_ratio` is in millionths.
pub record BudgetLedger : Type 0 where
  pub per_request : ℕ
  pub warn_ratio : ℕ
  pub windows : List Window

-- `BudgetLedger.__init__`
unfoldable pub budget_ledger : ℕ → ℕ → ℕ → ℕ → ℕ → BudgetLedger
budget_ledger per_request per_hour per_day per_month warn_ratio = record {
  per_request = per_request;
  warn_ratio = warn_ratio;
  windows =
      keep (λ w. ltb 0 w.limit)
        (record {
          name = WindowName.hour;
          duration = some 3600000000;
          limit = per_hour;
          entries = [];
        }
          ∷ record {
            name = WindowName.day;
            duration = some 86400000000;
            limit = per_day;
            entries = [];
          }
          ∷ record { name = WindowName.month; duration = none; limit = per_month; entries = [] }
          ∷ []);
}

abbrev pub tripped_verdict : BudgetState → ℕ → Window → BudgetVerdict
tripped_verdict state now w = record {
  state = state;
  window = some w.name;
  spent = some (spent now w);
  limit = some w.limit;
}

-- A loop of `check`: prune each window, and return at the first one that trips.
unfoldable pub scan :
    BudgetState → (Window → ℕ → Bool) → ℕ → List Window → List Window × Option BudgetVerdict
scan state trips now [] = ([], none)
scan state trips now (w ∷ ws) =
    let rest = scan state trips now ws in
    if trips w (spent now w)
    then (prune now w ∷ ws, some (tripped_verdict state now w))
    else (prune now w ∷ rest.0, rest.1)

abbrev pub over_limit : ℕ → Window → ℕ → Bool
over_limit amount w s = ltb w.limit (s + amount)

abbrev pub near_limit : ℕ → ℕ → Window → ℕ → Bool
near_limit warn_ratio amount w s = ltb (w.limit * warn_ratio) ((s + amount) * 1000000)

abbrev verdict : BudgetState → BudgetVerdict
verdict state = record { state = state; window = none; spent = none; limit = none }

-- The second loop of `check`, after the first has returned.
unfoldable pub check_windows : ℕ → ℕ → ℕ → List Window → List Window × BudgetVerdict
unfolding scan
check_windows warn_ratio amount now ws =
    let (ws1, hard) = scan BudgetState.exceeded (over_limit amount) now ws in
    elim hard [
      | some v ↦ (ws1, v)
      | none ↦
          let (ws2, soft) = scan BudgetState.warning (near_limit warn_ratio amount) now ws1 in
          elim soft [ some v ↦ (ws2, v) | none ↦ (ws2, verdict BudgetState.healthy) ]
    ]

unfoldable pub check_amount : ℕ → ℕ → BudgetLedger → BudgetLedger × BudgetVerdict
check_amount amount now l =
    if ltb 0 l.per_request && ltb l.per_request amount
    then (
      l,
      record {
        state = BudgetState.exceeded;
        window = some WindowName.request;
        spent = some amount;
        limit = some l.per_request;
      },
    )
    else (let (ws, v) = check_windows l.warn_ratio amount now l.windows in
        (record l { windows = ws }, v))

-- The amount of a cost that is known, as the first test of `check` and `record` reads it.
abbrev pub known_amount : AiCost → Option ℕ
known_amount c = if c.known then c.amount else none

-- `BudgetLedger.check`
unfoldable pub check : AiCost → ℕ → BudgetLedger → BudgetLedger × BudgetVerdict
check projected now l = elim (known_amount projected) [
  | none ↦ (l, verdict BudgetState.healthy)
  | some amount ↦ check_amount amount now l
]

abbrev pub append_entry : ℕ → ℕ → Window → Window
append_entry now amount w = record w { entries = w.entries ++ (now, amount) ∷ [] }

-- `BudgetLedger.record`
unfoldable pub record_cost : AiCost → ℕ → BudgetLedger → BudgetLedger
record_cost cost now l = elim (known_amount cost) [
  | none ↦ l
  | some amount ↦ record l { windows = map (append_entry now amount) l.windows }
]

pub record WindowSnapshot : Type 0 where
  pub window : WindowName
  pub limit : ℕ
  pub spent : ℕ
  pub remaining : ℕ

abbrev snapshot_of : ℕ → Window → WindowSnapshot
snapshot_of now w = record {
  window = w.name;
  limit = w.limit;
  spent = spent now w;
  remaining = w.limit - spent now w;
}

-- `BudgetLedger.snapshot`: the windows are pruned on the way.
unfoldable pub snapshot : ℕ → BudgetLedger → BudgetLedger × List WindowSnapshot
snapshot now l = (record l { windows = map (prune now) l.windows }, map (snapshot_of now) l.windows)
