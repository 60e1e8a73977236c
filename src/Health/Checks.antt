-- ===== src/Health/Checks.antt =====
-- The checks of dependencies and of data in observability/checks.py, on what their probes and queries
-- find. Ages are in hundredths of a day, to which the code rounds them; what lies in the future has the
-- age 0.
use trading_brain.Base.{
  latest_of, ℕ, ◌-◌, ◌*◌, Bool, true, not, ◌&&◌, ◌||◌, Option, none, some, List, [], ◌∷◌, map, ltb,
  leb, ◌==◌, if◌then◌else◌, keep, any, round_div,
}
use trading_brain.Quant.Floats.{Floats}
use trading_brain.Data.ResearchQueue
use trading_brain.Data.ResearchQueue.{ResearchQueueEntry, same_status}
use trading_brain.Paper.Portfolio.{PaperTransaction, PaperPortfolio}
use trading_brain.Health.Status.{Status, CheckName, Check, check_of}

-- What the checks read of `Settings`.
pub record Settings : Type 0 where
  pub has_obsidian_key : Bool
  pub has_anthropic_key : Bool
  pub auth_tokens : ℕ
  pub is_production : Bool

-- The registry of providers that `build_registry` returns: whether its primary is synthetic, and whether
-- the probe of it succeeds.
pub record ProviderState : Type 0 where
  pub synthetic : Bool
  pub probe_healthy : Bool

-- What the probes find: `none` stands for an exception.
pub record Probes : Type 0 where
  pub database_answers : Bool
  pub obsidian_response : Option ℕ
  pub registry : Option ProviderState

-- `_age_days`
unfoldable pub age_days : ℕ → ℕ → ℕ
unfolding round_div
age_days now stamp = round_div ((now - stamp) * 100) 86_400_000_000

unfoldable pub check_database : Probes → Check
check_database p =
    check_of CheckName.database (if p.database_answers then Status.healthy else Status.unavailable)

unfoldable pub check_obsidian : Settings → Probes → Check
check_obsidian s p = check_of CheckName.obsidian (
    if not s.has_obsidian_key then Status.degraded else (elim p.obsidian_response [
      | none ↦ Status.unavailable
      | some code ↦
          if code == 401 || code == 403
          then Status.unavailable
          else if leb 400 code
          then Status.degraded
          else Status.healthy
    ]))

unfoldable pub check_claude : Settings → Check
check_claude s =
    check_of CheckName.claude (if s.has_anthropic_key then Status.healthy else Status.degraded)

unfoldable pub check_market_data : Settings → Probes → Check
check_market_data s p = check_of CheckName.market_data (elim p.registry [
  | none ↦ Status.unavailable
  | some r ↦
      if r.synthetic && s.is_production
      then Status.degraded
      else if r.synthetic
      then Status.healthy
      else if r.probe_healthy
      then Status.healthy
      else Status.unavailable
])

unfoldable pub check_api_auth : Settings → Check
check_api_auth s = check_of CheckName.api_auth (
    if ltb 0 s.auth_tokens
    then Status.healthy
    else if s.is_production
    then Status.unavailable
    else Status.degraded)

unfoldable pub dependency_checks : Settings → Probes → List Check
unfolding check_database check_api_auth check_market_data check_obsidian check_claude
dependency_checks s p =
    check_database p
    ∷ check_api_auth s
    ∷ check_market_data s p
    ∷ check_obsidian s p
    ∷ check_claude s
    ∷ []

-- `check_price_freshness`, on the times of the stored bars.
unfoldable pub check_price_freshness : ℕ → List ℕ → Check
unfolding age_days
check_price_freshness now stamps = check_of CheckName.price_freshness (elim (latest_of stamps) [
  | none ↦ Status.degraded
  | some latest ↦
      if ltb 1000 (age_days now latest)
      then Status.unavailable
      else if ltb 400 (age_days now latest)
      then Status.degraded
      else Status.healthy
])

-- Whether a thesis, last reviewed at a time, is stale.
abbrev pub is_unreviewed : ℕ → Option ℕ → Bool
is_unreviewed now none = true
is_unreviewed now (some t) = ltb 6000 (age_days now t)

-- `check_stale_theses`, on the last reviews of the active theses.
unfoldable pub check_stale_theses : ℕ → List (Option ℕ) → Check
unfolding age_days
check_stale_theses now reviews =
    check_of CheckName.stale_theses
      (if any (is_unreviewed now) reviews then Status.degraded else Status.healthy)

-- `check_research_queue_age`: the oldest age is above the limit if one is.
unfoldable pub check_research_queue_age : ℕ → List ResearchQueueEntry → Check
unfolding age_days
check_research_queue_age now table =
    let pending =
      keep (λ (e : ResearchQueueEntry). same_status e.status ResearchQueue.Status.pending) table in
    check_of CheckName.research_queue (
      if any (λ (e : ResearchQueueEntry). ltb 1400 (age_days now e.detected_at)) pending
      then Status.degraded
      else Status.healthy)

-- `check_watchlists`, on the numbers of items of the watchlists.
unfoldable pub check_watchlists : List ℕ → Check
check_watchlists [] = check_of CheckName.watchlists Status.degraded
check_watchlists (n ∷ sizes) =
    check_of CheckName.watchlists
      (if any (λ size. size == 0) (n ∷ sizes) then Status.degraded else Status.healthy)

module _ (num : Floats) where
  -- `sum(...)`, which starts from 0.
  abbrev pub sum_from : num.F → List num.F → num.F
  sum_from total [] = total
  sum_from total (x ∷ xs) = sum_from (num.add total x) xs

  abbrev pub cash_deltas : PaperPortfolio num → List num.F
  cash_deltas p = map (λ (t : PaperTransaction num). t.cash_delta) p.transactions

  -- Whether the cash of a portfolio is more than a cent away from its ledger.
  unfoldable pub is_mismatched : PaperPortfolio num → Bool
  is_mismatched p =
      let expected = num.add p.initial_cash (sum_from (num.whole 0) (cash_deltas p)) in
      num.lt (num.div (num.whole 1) (num.whole 100)) (num.abs (num.sub expected p.cash_balance))

  unfoldable pub check_portfolio_consistency : List (PaperPortfolio num) → Check
  unfolding is_mismatched
  check_portfolio_consistency portfolios =
      check_of CheckName.portfolio_consistency
        (if any is_mismatched portfolios then Status.unavailable else Status.healthy)

  -- The rows that the checks of data select.
  pub record Rows : Type 0 where
    pub price_stamps : List ℕ
    pub portfolios : List (PaperPortfolio num)
    pub active_reviews : List (Option ℕ)
    pub queue : List ResearchQueueEntry
    pub watchlists : List ℕ

  unfoldable pub data_checks : ℕ → Rows → List Check
  unfolding check_price_freshness check_portfolio_consistency check_stale_theses
      check_research_queue_age check_watchlists
  data_checks now rows =
      check_price_freshness now rows.price_stamps
      ∷ check_portfolio_consistency rows.portfolios
      ∷ check_stale_theses now rows.active_reviews
      ∷ check_research_queue_age now rows.queue
      ∷ check_watchlists rows.watchlists
      ∷ []
