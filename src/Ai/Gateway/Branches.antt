-- ===== src/Ai/Gateway/Branches.antt =====
-- Which way a request goes through the gateway: from the settings, the request, the times and the state
-- before it.
use trading_brain.Base.{
  ℕ, Bool, true, false, ◌&&◌, not, ◌≡◌, Option, none, some, Result, ok, err, if◌then◌else◌,
}
use trading_brain.Ai.Kinds.{ErrorKind}
use trading_brain.Ai.Schemas.{
  Name, AiRequest, Payload, payload, AiRoutingDecision, AiCost, AiResponse, context_size,
}
use trading_brain.Ai.Budget
use trading_brain.Ai.Limiter
use trading_brain.Ai.Cache
use trading_brain.Ai.Pricing.{project}
use trading_brain.Ai.Router.{route}
use trading_brain.Ai.Gateway.{Settings, Recorder, Gateway, Clock, Answer, Outcome, rate_key}
use trading_brain.Ai.Gateway.Rows.{Tidy}

module _ (settings : Settings) (digest : Payload → ℕ) where
  -- The requests are enabled, and the caller is within the rate limits.
  abbrev pub is_let_in : AiRequest → Clock → Gateway → Bool
  is_let_in request clock g =
      settings.ai_enabled && (Limiter.check (rate_key request) clock.limited g.limiter).1.allowed

  -- The answer to an equal request that the cache still holds.
  abbrev pub held : AiRequest → Clock → Gateway → Option AiResponse
  held request clock g = (Cache.get (digest (payload request)) clock.looked_up g.cache).1

  -- No equal request is in flight.
  abbrev pub is_first : AiRequest → Clock → Gateway → Bool
  is_first request clock g =
      let f = digest (payload request) in (Cache.begin f (Cache.get f clock.looked_up g.cache).0).1

  abbrev pub projected_cost : AiRequest → AiRoutingDecision → AiCost
  projected_cost request d =
      project d.model (context_size request) request.policy.max_output_tokens settings.pricing

  -- The projected cost is one that may be compared, and the budget does not allow it.
  abbrev pub is_over : AiRequest → Clock → Gateway → AiRoutingDecision → Bool
  is_over request clock g d =
      not (not (projected_cost request d).known && not settings.ai_allow_unpriced_models)
      && not (Budget.allowed (Budget.check (projected_cost request d) clock.budgeted g.budget).1)

  -- A model is found for the request, and the cost of that is over the budget.
  abbrev pub is_over_if_routed :
      AiRequest → Clock → Gateway → Result ErrorKind AiRoutingDecision → Bool
  is_over_if_routed request clock g (ok d) = is_over request clock g d
  is_over_if_routed request clock g (err e) = false

  abbrev pub is_found : Option AiResponse → Bool
  is_found none = false
  is_found (some r) = true

  -- A request that is answered from the cache.
  abbrev pub is_hit : AiRequest → Clock → Gateway → Bool
  is_hit request clock g = is_let_in request clock g && is_found (held request clock g)

  -- A request whose projected cost the budget refuses.
  abbrev pub is_over_budget : AiRequest → Clock → Gateway → Bool
  is_over_budget request clock g =
      is_let_in request clock g
      && (not (is_found (held request clock g))
          && (is_first request clock g
              && is_over_if_routed request clock g (route request false g.registry).1))

module _ (settings : Settings) (digest : Payload → ℕ)
    (answer : Name → Name → AiRequest → ℕ → Answer)
    (writes : settings.recorder ≡ Recorder.working) where
  pub Tidy-guarded :
      (unpriced refused : Bool) (g : Gateway) (x y z : Outcome)
      → Tidy settings digest answer writes false false g x
      → Tidy settings digest answer writes false true g y
      → Tidy settings digest answer writes false false g z
      → Tidy settings digest answer writes false
          (not unpriced && refused)
          g
          (if unpriced then x else if refused then y else z)
  Tidy-guarded true refused g x y z hx hy hz = hx
  Tidy-guarded false true g x y z hx hy hz = hy
  Tidy-guarded false false g x y z hx hy hz = hz

  pub Tidy-let_in :
      (enabled permitted hit over : Bool) (g : Gateway) (x y z : Outcome)
      → Tidy settings digest answer writes false false g x
      → Tidy settings digest answer writes false false g y
      → Tidy settings digest answer writes hit over g z
      → Tidy settings digest answer writes
          (enabled && permitted && hit)
          (enabled && permitted && over)
          g
          (if not enabled then x else if not permitted then y else z)
  Tidy-let_in false permitted hit over g x y z hx hy hz = hx
  Tidy-let_in true false hit over g x y z hx hy hz = hy
  Tidy-let_in true true hit over g x y z hx hy hz = hz
