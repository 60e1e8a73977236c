-- ===== src/Ai/Gateway.antt =====
-- `AIGateway` of ai/gateway.py: one request through validation, the rate limit, the cache, the
-- router, the budget, the provider and the accounts. Each step is a function of the gateway's state.
-- What a provider answers, and what a digest is, are parameters; every reading of the clock is an
-- argument. The trace of provider calls is kept in the state.
mod State
pub mod Rows
pub mod Branches
pub mod Effects
pub mod Counters
pub mod Privacy
pub mod Attempts
pub use State.*
use trading_brain.Base.{
  ℕ, zero, suc, ◌+◌, ◌*◌, ◌-◌, Bool, true, false, ◌&&◌, not, Option, none, some, List, [], ◌∷◌,
  ◌++◌, if◌then◌else◌, length, Result, ok, err,
}
use trading_brain.Ai.Kinds.{AiTier, AiTaskType, ErrorKind, is_local}
use trading_brain.Ai.Schemas.{
  Name, AiUsage, AiCost, unknown, priced, AiRequest, Payload, payload, context_size,
  AiRoutingDecision, AiResponse, unavailable,
}
use trading_brain.Ai.Budget
use trading_brain.Ai.Budget.{BudgetLedger, BudgetState}
use trading_brain.Ai.Limiter
use trading_brain.Ai.Limiter.{RateLimiter}
use trading_brain.Ai.Cache
use trading_brain.Ai.Cache.{ResponseCache, task_cache_ttl}
use trading_brain.Ai.Registry
use trading_brain.Ai.Registry.{AiProviderRegistry}
use trading_brain.Ai.Router.{route}
use trading_brain.Ai.Pricing.{PricingTable, estimate, project}
use trading_brain.Ai.Usage.{AiRequestRecord, audit_row}

-- The exceptions after which `_call_provider` tries again.
unfoldable pub is_retryable : ErrorKind → Bool
is_retryable ErrorKind.provider_unavailable = true
is_retryable ErrorKind.invalid_response = true
is_retryable _ = false

-- `_as_cached`
unfoldable pub as_cached : AiResponse → Name → AiResponse
as_cached response request_id = record response {
  request_id = request_id;
  cached = true;
  cost = priced 0;
}

-- `_blocked_response`
unfoldable pub blocked_response : AiRequest → AiRoutingDecision → AiResponse
unfolding unavailable
blocked_response request d =
    unavailable request.context.request_id ErrorKind.budget_exceeded (some d.provider)
      (some d.model) (some d)

-- The principal of a request that has none.
abbrev anonymous : Name
anonymous = 0

abbrev task_index : AiTaskType → ℕ
task_index AiTaskType.research_synthesis = 0
task_index AiTaskType.thesis_review = 1
task_index AiTaskType.journal_review = 2
task_index AiTaskType.summarization = 3
task_index AiTaskType.classification = 4
task_index AiTaskType.entity_extraction = 5

-- `_rate_key`: a number for the text "principal:task", another one for each pair.
unfoldable pub rate_key : AiRequest → ℕ
rate_key request =
    elim request.context.principal [ none ↦ anonymous | some p ↦ p ] * 6
    + task_index request.task_type

abbrev recorded : Recorder → AiRequestRecord → List AiRequestRecord → List AiRequestRecord
recorded Recorder.working row rows = rows ++ row ∷ []
recorded _ row rows = rows

-- `_price` attaches the cost of the usage at the model that answered.
abbrev cost_of : AiResponse → PricingTable → AiCost
cost_of r t = elim r.model [ none ↦ unknown | some m ↦ estimate m r.usage t ]

abbrev is_warning : BudgetState → Bool
is_warning BudgetState.warning = true
is_warning _ = false

-- Go on with the value of a step that has returned one.
abbrev pub on_ok : {A : Type 0} → Gateway × Result ErrorKind A → (A → Gateway → Outcome) → Outcome
on_ok (g, ok a) f = f a g
on_ok (g, err e) f = (g, err e)

module _ (settings : Settings) (digest : Payload → ℕ)
    (answer : Name → Name → AiRequest → ℕ → Answer) where
  -- `_record`: a recorder that fails breaks nothing.
  unfoldable pub record_usage : AiRequest → AiResponse → Gateway → Gateway
  record_usage request response g = record g {
    audit = recorded settings.recorder (audit_row request response) g.audit;
  }

  abbrev call_of : AiRoutingDecision → Call
  call_of d = record { tier = d.tier; provider = d.provider; model = d.model }

  abbrev routed_response : AiRoutingDecision → ℕ → AiResponse → AiResponse
  routed_response d retries r = record r { routing = some d; retry_count = retries }

  -- The attempts that are left, and the error of the last one. The answer to a call may depend on how
  -- many calls have been made.
  unfoldable pub attempt :
      AiRequest
      → AiRoutingDecision
      → (left made : ℕ) → ErrorKind
      → List Call
      → List Call × Result ErrorKind AiResponse
  unfolding is_retryable
  attempt request d zero made last calls = (calls, err last)
  attempt request d (suc left) made last calls =
      let retry = λ (e : ErrorKind). attempt request d left (made + 1) e (call_of d ∷ calls) in
      elim (answer d.provider d.model request (length calls)) [
        | responded r ↦ (call_of d ∷ calls, ok (routed_response d made r))
        | raised e ↦ if is_retryable e then retry e else (call_of d ∷ calls, err e)
      ]

  -- `_call_provider`
  unfoldable pub call_provider : AiRequest → AiRoutingDecision → Gateway → Outcome
  call_provider request d g =
      let (registry, provider) = Registry.get d.provider g.registry in
      on_ok (record g { registry = registry }, provider)
        λ _ g1.
          let (calls, result) =
            attempt request d request.policy.max_attempts 0 ErrorKind.provider_unavailable
              g1.calls in
          (record g1 { calls = calls }, result)

  abbrev counted : AiRoutingDecision → GatewayStats → GatewayStats
  counted d s = record s {
    escalations = s.escalations + (if d.escalated then 1 else 0);
    local_calls = s.local_calls + (if is_local d.tier then 1 else 0);
    frontier_calls = s.frontier_calls + (if is_local d.tier then 0 else 1);
    succeeded = s.succeeded + 1;
  }

  -- Step 7 of `_routed_invoke`.
  unfoldable pub account :
      AiRequest → ℕ → Clock → AiRoutingDecision → AiResponse → Gateway → Outcome
  account request fingerprint clock d r g =
      let response : AiResponse = record r { cost = cost_of r settings.pricing } in
      let g1 : Gateway = record g {
        budget = Budget.record_cost response.cost clock.spent g.budget;
        cache =
            Cache.put fingerprint response (task_cache_ttl request.task_type) clock.stored g.cache;
        stats = counted d g.stats;
      } in
      (record_usage request response g1, ok response)

  -- Step 6: the hit is recorded before the provider is called.
  unfoldable pub call_and_account :
      AiRequest → ℕ → ℕ → Clock → AiRoutingDecision → Gateway → Outcome
  call_and_account request fingerprint key clock d g =
      on_ok
        (call_provider request d
          (record g { limiter = Limiter.record_hit key clock.hit g.limiter }))
        (account request fingerprint clock d)

  -- Step 5: the budget, against the projection.
  unfoldable pub within_budget : AiRequest → ℕ → ℕ → Clock → AiRoutingDecision → Gateway → Outcome
  within_budget request fingerprint key clock d g =
      let projected =
        project d.model (context_size request) request.policy.max_output_tokens settings.pricing in
      let (budget, verdict) = Budget.check projected clock.budgeted g.budget in
      let g1 : Gateway = record g { budget = budget } in
      if not projected.known && not settings.ai_allow_unpriced_models
      then (g, err ErrorKind.budget_exceeded)
      else if not (Budget.allowed verdict)
      then (
        record_usage request (blocked_response request d)
            (record g1 { stats = record g.stats { blocked_budget = g.stats.blocked_budget + 1 } }),
        err ErrorKind.budget_exceeded,
      )
      else call_and_account request fingerprint key clock d g1

  -- `_routed_invoke`: the state of the budget that the router is given is that of an unknown cost.
  unfoldable pub routed_invoke : AiRequest → ℕ → ℕ → Clock → Gateway → Outcome
  routed_invoke request fingerprint key clock g =
      let (budget, pre) = Budget.check unknown clock.pre_routed g.budget in
      let (registry, decided) = route request (is_warning pre.state) g.registry in
      on_ok (record g { budget = budget; registry = registry }, decided)
        (within_budget request fingerprint key clock)

  -- `finally: self._cache.end(fingerprint)`
  abbrev released : ℕ → Outcome → Outcome
  released fingerprint (g, r) = (record g { cache = Cache.end fingerprint g.cache }, r)

  -- Step 3: the cache, and the claim of the fingerprint.
  unfoldable pub cached_or_routed : AiRequest → ℕ → Clock → Gateway → Outcome
  cached_or_routed request key clock g =
      let fingerprint = digest (payload request) in
      let (cache, found) = Cache.get fingerprint clock.looked_up g.cache in
      let g1 : Gateway = record g { cache = cache } in
      let (claimed_cache, claimed) = Cache.begin fingerprint cache in
      elim found [
        | some r ↦ (
          record g1 { stats = record g.stats { cache_hits = g.stats.cache_hits + 1 } },
          ok (as_cached r request.context.request_id),
        )
        | none ↦
            if claimed
            then released fingerprint
                (routed_invoke request fingerprint key clock (record g1 { cache = claimed_cache }))
            else (g1, err ErrorKind.provider_unavailable)
      ]

  -- `_invoke`
  unfoldable pub chain : AiRequest → Clock → Gateway → Outcome
  chain request clock g =
      let key = rate_key request in
      let (limiter, verdict) = Limiter.check key clock.limited g.limiter in
      let g1 : Gateway = record g { limiter = limiter } in
      if not settings.ai_enabled
      then (g, err ErrorKind.provider_unavailable)
      else if not verdict.allowed
      then (
        record g1 {
          stats = record g.stats { blocked_rate_limit = g.stats.blocked_rate_limit + 1 };
        },
        err ErrorKind.rate_limit_exceeded,
      )
      else cached_or_routed request key clock g1

  -- `_fail`
  unfoldable pub fail : AiRequest → ErrorKind → Gateway → Gateway × AiResponse
  fail request kind g =
      let response = unavailable request.context.request_id kind none none none in
      (
        record_usage request response
            (record g { stats = record g.stats { failed = g.stats.failed + 1 } }),
        response,
      )

  abbrev settled : AiRequest → Outcome → Gateway × AiResponse
  settled request (g, ok response) = (g, response)
  settled request (g, err kind) = fail request kind g

  -- `invoke`
  unfoldable pub invoke : AiRequest → Clock → Gateway → Gateway × AiResponse
  invoke request clock g = settled request (
      chain request clock (record g { stats = record g.stats { requests = g.stats.requests + 1 } }))
