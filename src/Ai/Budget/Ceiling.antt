-- ===== src/Ai/Budget/Ceiling.antt =====
-- What `check` decides, and that an allowed and then recorded cost stays below every ceiling.
use trading_brain.Base.{
  ℕ, zero, suc, ◌+◌, ◌*◌, ◌≤◌, ◌<◌, ◌≡◌, refl, sym, subst, Bool, true, false, ◌&&◌, ◌||◌, Option,
  none, some, List, [], ◌∷◌, map, arith, ltb, if◌then◌else◌, any, All, Bool-cases, inl, inr,
  ltb-eq-false,
}
use trading_brain.Ai.Schemas.{AiCost, priced}
use trading_brain.Ai.Budget.{
  BudgetState, BudgetVerdict, Window, BudgetLedger, allowed, prune, spent, scan, over_limit,
  near_limit, tripped_verdict, check_windows, check_amount, check, known_amount, append_entry,
  record_cost, budget_ledger, pop_while,
}
use trading_brain.Ai.Budget.Windows.{limit-prune, spent-prune, spent-append_entry}

module _ (state : BudgetState) (trips : Window → ℕ → Bool) (now : ℕ) where
  abbrev tripped : List Window → Bool
  tripped = any (λ w. trips w (spent now w))

  scan_quiet :
      (ws : List Window) → tripped ws ≡ false → scan state trips now ws ≡ (map (prune now) ws, none)
  unfolding scan
  scan_quiet [] h = refl
  scan_quiet (w ∷ ws) h = ground (arith, scan_quiet ws)

  scan_trips :
      (ws : List Window)
      → tripped ws ≡ true
      → (v : BudgetVerdict) × ((scan state trips now ws).1 ≡ some v) × (v.state ≡ state)
  unfolding scan
  scan_trips [] h = cc
  scan_trips (w ∷ ws) h = elim (Bool-cases (trips w (spent now w))) [
    | inl here ↦ (tripped_verdict state now w, rw here, refl)
    | inr not_here ↦ rw not_here (scan_trips ws (rw not_here at h))
  ]

  -- The loop keeps what pruning keeps.
  scan-All :
      (P : Window → Type 0)
      → ((w : Window) → P w → P (prune now w))
      → (ws : List Window) → All P ws
      → All P (scan state trips now ws).0
  unfolding scan
  scan-All P keeps [] h = tt
  scan-All P keeps (w ∷ ws) h = elim (Bool-cases (trips w (spent now w))) [
    | inl here ↦ rw here (keeps w h.0, h.1)
    | inr not_here ↦ rw not_here (keeps w h.0, scan-All P keeps ws h.1)
  ]

module _ (now : ℕ) where
  any_near-prune :
      (warn_ratio amount : ℕ) (ws : List Window)
      → any (λ w. near_limit warn_ratio amount w (spent now w)) (map (prune now) ws)
        ≡ any (λ w. near_limit warn_ratio amount w (spent now w)) ws
  any_near-prune warn_ratio amount [] = refl
  any_near-prune warn_ratio amount (w ∷ ws) =
      rw (spent-prune now w, limit-prune now w, any_near-prune warn_ratio amount ws)

  -- There is room for the amount.
  abbrev HasRoom : ℕ → Window → Type 0
  HasRoom amount w = spent now w + amount ≤ w.limit

  HasRoom-prune : (amount : ℕ) (w : Window) → HasRoom amount w → HasRoom amount (prune now w)
  HasRoom-prune amount w h = rw (spent-prune now w, limit-prune now w) h

  room_of_quiet :
      (amount : ℕ) (ws : List Window)
      → any (λ w. over_limit amount w (spent now w)) ws ≡ false
      → All (HasRoom amount) ws
  room_of_quiet amount [] h = tt
  room_of_quiet amount (w ∷ ws) h = elim (Bool-cases (over_limit amount w (spent now w))) [
    | inl over ↦ cc (rw over at h)
    | inr fits ↦ (ltb-eq-false _ _ fits, room_of_quiet amount ws (rw fits at h))
  ]

abbrev state_of : Bool → Bool → BudgetState
state_of hard soft =
    if hard then BudgetState.exceeded else if soft then BudgetState.warning else BudgetState.healthy

-- The state that the ledger's figures call for, window by window.
abbrev pub judged : ℕ → ℕ → BudgetLedger → BudgetState
judged amount now l =
    state_of
      ((ltb 0 l.per_request && ltb l.per_request amount)
        || any (λ w. ltb w.limit (spent now w + amount)) l.windows)
      (any (λ w. ltb (w.limit * l.warn_ratio) ((spent now w + amount) * 1000000)) l.windows)

-- What the second loop answers on the windows that the first has pruned.
soft_state : (warn_ratio amount now : ℕ) → List Window → BudgetState
soft_state warn_ratio amount now ws =
    elim (scan BudgetState.warning (near_limit warn_ratio amount) now ws).1 [
      | some v ↦ v.state
      | none ↦ BudgetState.healthy
    ]

soft_state_lem :
    (warn_ratio amount now : ℕ) (ws : List Window)
    → soft_state warn_ratio amount now ws
      ≡ state_of false (any (λ w. near_limit warn_ratio amount w (spent now w)) ws)
unfolding soft_state
soft_state_lem warn_ratio amount now ws =
    elim (Bool-cases (tripped BudgetState.warning (near_limit warn_ratio amount) now ws)) [
      | inl near ↦
          let (v, found, s) =
            scan_trips BudgetState.warning (near_limit warn_ratio amount) now ws near in
          ground (arith, found, near, s)
      | inr far ↦
          ground
            (arith, scan_quiet BudgetState.warning (near_limit warn_ratio amount) now ws far, far)
    ]

check_windows_state :
    (warn_ratio amount now : ℕ) (ws : List Window)
    → (check_windows warn_ratio amount now ws).1.state
      ≡ state_of
          (any (λ w. over_limit amount w (spent now w)) ws)
          (any (λ w. near_limit warn_ratio amount w (spent now w)) ws)
unfolding check_windows soft_state
check_windows_state warn_ratio amount now ws =
    elim (Bool-cases (tripped BudgetState.exceeded (over_limit amount) now ws)) [
      | inl over ↦
          let (v, found, s) = scan_trips BudgetState.exceeded (over_limit amount) now ws over in
          ground (arith, found, over, s)
      | inr fits ↦ ground (
        arith,
        scan_quiet BudgetState.exceeded (over_limit amount) now ws fits,
        fits,
        soft_state_lem warn_ratio amount now (map (prune now) ws),
        any_near-prune now warn_ratio amount ws,
      )
    ]

-- `check` of a known amount answers as the figures call for: exceeded if the amount is above the ceiling
-- of a request, where there is one, or with it the spend of some window would be above the limit;
-- else warning if with it the spend of some window would be above `warn_ratio` of the limit; else healthy.
pub check_state :
    (amount now : ℕ) (l : BudgetLedger) (c : AiCost)
    → known_amount c ≡ some amount
    → (check c now l).1.state ≡ judged amount now l
unfolding check check_amount
check_state amount now l c known =
    ground (arith, known, check_windows_state l.warn_ratio amount now l.windows)

windows-check_windows :
    (warn_ratio amount now : ℕ) (ws : List Window)
    → any (λ w. over_limit amount w (spent now w)) ws ≡ false
    → (check_windows warn_ratio amount now ws).0
      ≡ (scan BudgetState.warning (near_limit warn_ratio amount) now (map (prune now) ws)).0
unfolding check_windows
windows-check_windows warn_ratio amount now ws fits =
    ground (arith, scan_quiet BudgetState.exceeded (over_limit amount) now ws fits)

check_windows-HasRoom :
    (warn_ratio amount now : ℕ) (ws : List Window)
    → any (λ w. over_limit amount w (spent now w)) ws ≡ false
    → All (HasRoom now amount) (check_windows warn_ratio amount now ws).0
check_windows-HasRoom warn_ratio amount now ws fits =
    rw (windows-check_windows warn_ratio amount now ws fits) (
      scan-All BudgetState.warning (near_limit warn_ratio amount) now (HasRoom now amount)
        (HasRoom-prune now amount) (map (prune now) ws)
        (subst (λ r. All (HasRoom now amount) r.0)
          (scan_quiet BudgetState.exceeded (over_limit amount) now ws fits)
          (scan-All BudgetState.exceeded (over_limit amount) now (HasRoom now amount)
            (HasRoom-prune now amount) ws (room_of_quiet now amount ws fits))))

windows-check :
    (amount now : ℕ) (l : BudgetLedger) (c : AiCost)
    → known_amount c ≡ some amount
    → allowed (check c now l).1 ≡ true
    → (check c now l).0.windows ≡ (check_windows l.warn_ratio amount now l.windows).0
unfolding check check_amount
windows-check amount now l c known permitted = ground (arith, known)

-- If `check` allows a projected amount, there is room for it in every window of the ledger.
pub check-HasRoom :
    (amount now : ℕ) (l : BudgetLedger) (c : AiCost)
    → known_amount c ≡ some amount
    → allowed (check c now l).1 ≡ true
    → All (HasRoom now amount) (check c now l).0.windows
unfolding check check_amount
check-HasRoom amount now l c known permitted =
    let fits : any (λ w. over_limit amount w (spent now w)) l.windows ≡ false =
      ground (arith, check_state amount now l c known) in
    rw (windows-check amount now l c known permitted)
      (check_windows-HasRoom l.warn_ratio amount now l.windows fits)

record_into :
    (now amount actual : ℕ) (ws : List Window)
    → actual ≤ amount
    → All (HasRoom now amount) ws
    → All (λ w. spent now w ≤ w.limit) (map (append_entry now actual) ws)
record_into now amount actual [] le h = tt
record_into now amount actual (w ∷ ws) le h =
    (omega (arith, spent-append_entry now actual w, h.0), record_into now amount actual ws le h.1)

-- A cost that was allowed as `projected`, and turns out to be no more than that, leaves the spend of
-- every window at or below its limit once it is recorded at the same time.
pub spent-record_cost-le :
    (projected actual : AiCost) (amount paid now : ℕ) (l : BudgetLedger)
    → known_amount projected ≡ some amount
    → known_amount actual ≡ some paid
    → paid ≤ amount
    → allowed (check projected now l).1 ≡ true
    → All (λ w. spent now w ≤ w.limit) (record_cost actual now (check projected now l).0).windows
unfolding record_cost
spent-record_cost-le projected actual amount paid now l known known_paid le permitted =
    subst (λ a. All (λ w. spent now w ≤ w.limit) (recorded a (check projected now l).0).windows)
      (sym known_paid)
      (record_into now amount paid (check projected now l).0.windows le
        (check-HasRoom amount now l projected known permitted))
  where
    recorded : Option ℕ → BudgetLedger → BudgetLedger
    recorded a m = elim a [
      | none ↦ m
      | some x ↦ record m { windows = map (append_entry now x) m.windows }
    ]

-- A cost that is not known is never counted: `check` lets it pass from any ledger, which it leaves as
-- it was, and `record` leaves the ledger as it was.
pub unknown_cost_ignored :
    (c : AiCost) (now : ℕ) (l : BudgetLedger)
    → known_amount c ≡ none
    → ((check c now l).0 ≡ l)
      × ((check c now l).1.state ≡ BudgetState.healthy)
      × (record_cost c now l ≡ l)
unfolding check record_cost
unknown_cost_ignored c now l h = ground (arith, h)

-- `check` and `record` are two critical sections. If two requests check before either records, an
-- hourly limit that has room for one but not for both lets both pass and is then exceeded.
pub interleaved_checks_overspend :
    (limit amount now : ℕ)
    → 0 < limit
    → amount ≤ limit
    → limit < amount + amount
    → let first = check (priced amount) now (budget_ledger 0 limit 0 0 1000000) in
      let second = check (priced amount) now first.0 in
      let after = record_cost (priced amount) now (record_cost (priced amount) now second.0) in
      (allowed first.1 ≡ true)
      × (allowed second.1 ≡ true)
      × (any (λ w. ltb w.limit (spent now w)) after.windows ≡ true)
unfolding check check_amount check_windows scan prune pop_while record_cost budget_ledger
interleaved_checks_overspend zero amount now pos fits over = absurd (omega arith)
interleaved_checks_overspend (suc k) amount now pos fits over = ground arith
