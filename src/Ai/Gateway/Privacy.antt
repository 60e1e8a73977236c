-- ===== src/Ai/Gateway/Privacy.antt =====
-- Which providers a whole request can reach.
use trading_brain.Base.{
  ℕ, ◌+◌, ◌≡◌, ◌⊎◌, inl, inr, refl, sym, subst, ◌∙◌, Bool-cases, Bool, true, false, not, arith, ok,
  >>=-eq-ok, if_ind, Option-cases,
}
use trading_brain.Ai.Kinds.{AiTier, is_local_only, same_tier}
use trading_brain.Ai.Schemas.{Name, AiRequest, Payload, payload, AiRoutingDecision, unknown}
use trading_brain.Ai.Budget
use trading_brain.Ai.Limiter
use trading_brain.Ai.Cache
use trading_brain.Ai.Registry.{AiProviderRegistry, models_for_tier}
use trading_brain.Ai.Router.{plan, route, select_model}
use trading_brain.Ai.Router.Tiers.{plan-private}
use trading_brain.Ai.Gateway.{
  Settings, Gateway, Clock, Answer, Outcome, within_budget, routed_invoke, cached_or_routed, chain,
  fail, invoke, rate_key, record_usage, is_warning,
}
use trading_brain.Ai.Gateway.Counters.{on_ok_ind}
use trading_brain.Ai.Gateway.Attempts.{IsCalled, IsCalled-none, within_budget-IsCalled}

-- The decision carries the tier of the plan.
pub tier-route :
    (r : AiRequest) (b : Bool) (g : AiProviderRegistry) {d : AiRoutingDecision}
    → (route r b g).1 ≡ ok d
    → d.tier ≡ (plan r b).tier
unfolding route
tier-route r b g {d} e = elim (Bool-cases (same_tier (plan r b).tier AiTier.none)) [
  | inl unroutable ↦ ground (arith, rw (unroutable, route) at e)
  | inr routable ↦
      let (m, chosen, same) =
        >>=-eq-ok (select_model r (models_for_tier (plan r b).tier g).1) _
          (rw (routable, route) at e) in
      ground (arith, same)
]

-- A tier that only a request that permits it may be called at.
abbrev pub Permitted : AiRequest → AiTier → Type 0
Permitted r t =
    (is_local_only r.policy.privacy ≡ true) ⊎ (r.policy.allow_frontier ≡ false) → t ≡ AiTier.local

module _ (settings : Settings) (digest : Payload → ℕ)
    (answer : Name → Name → AiRequest → ℕ → Answer) where
  routed_invoke-IsCalled :
      (request : AiRequest) (f key : ℕ) (clock : Clock) (g : Gateway)
      → IsCalled request
          (Permitted request)
          g.calls
          (routed_invoke settings digest answer request f key clock g).0.calls
  unfolding routed_invoke
  routed_invoke-IsCalled request f key clock g =
      let (budget, pre) = Budget.check unknown clock.pre_routed g.budget in
      let decided = route request (is_warning pre.state) g.registry in
      on_ok_ind (λ (o : Outcome). IsCalled request (Permitted request) g.calls o.0.calls)
        (record g { budget = budget; registry = decided.0 }, decided.1)
        (within_budget settings digest answer request f key clock)
        (λ e failed. IsCalled-none request (Permitted request) refl)
        (λ d chosen.
          within_budget-IsCalled settings digest answer request (Permitted request) f key clock d _
            (λ private.
              tier-route request (is_warning pre.state) g.registry chosen
              ∙ plan-private request (is_warning pre.state) private))

  cached_or_routed-IsCalled :
      (request : AiRequest) (key : ℕ) (clock : Clock) (g : Gateway)
      → IsCalled request
          (Permitted request)
          g.calls
          (cached_or_routed settings digest answer request key clock g).0.calls
  unfolding cached_or_routed
  cached_or_routed-IsCalled request key clock g =
      let f : ℕ = digest (payload request) in
      elim (Option-cases (Cache.get f clock.looked_up g.cache).1) [
        | inl absent ↦
            rw (absent, cached_or_routed)
              (if_ind (λ (o : Outcome). IsCalled request (Permitted request) g.calls o.0.calls)
                (Cache.begin f (Cache.get f clock.looked_up g.cache).0).1
                (λ _. routed_invoke-IsCalled request f key clock _)
                (λ _. IsCalled-none request (Permitted request) refl))
        | inr (r, found) ↦
            rw (found, cached_or_routed) (IsCalled-none request (Permitted request) refl)
      ]

  chain-IsCalled :
      (request : AiRequest) (clock : Clock) (g : Gateway)
      → IsCalled request
          (Permitted request)
          g.calls
          (chain settings digest answer request clock g).0.calls
  unfolding chain
  chain-IsCalled request clock g =
      let limited = Limiter.check (rate_key request) clock.limited g.limiter in
      if_ind (λ (o : Outcome). IsCalled request (Permitted request) g.calls o.0.calls)
        (not settings.ai_enabled) (λ _. IsCalled-none request (Permitted request) refl)
        (λ _.
          if_ind (λ (o : Outcome). IsCalled request (Permitted request) g.calls o.0.calls)
            (not limited.1.allowed) (λ _. IsCalled-none request (Permitted request) refl)
            (λ _.
              cached_or_routed-IsCalled request (rate_key request) clock
                (record g { limiter = limited.0 })))

  calls-settled :
      (request : AiRequest) (clock : Clock) (g : Gateway)
      → (invoke settings digest answer request clock g).0.calls
        ≡ (chain settings digest answer request clock
            (record g { stats = record g.stats { requests = g.stats.requests + 1 } })).0.calls
  unfolding invoke fail record_usage
  calls-settled request clock g = ground arith

  -- One request makes at most `max_attempts` provider calls, all of them to the same tier, provider and
  -- model; a request that is local_only or forbids frontier providers makes them at the local tier
  -- only, whatever the state of the gateway.
  pub invoke-IsCalled :
      (request : AiRequest) (clock : Clock) (g : Gateway)
      → IsCalled request
          (Permitted request)
          g.calls
          (invoke settings digest answer request clock g).0.calls
  invoke-IsCalled request clock g =
      subst (IsCalled request (Permitted request) g.calls) (sym (calls-settled request clock g))
        (chain-IsCalled request clock _)
