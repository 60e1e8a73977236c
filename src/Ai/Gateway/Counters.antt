-- ===== src/Ai/Gateway/Counters.antt =====
-- The counters of `GatewayStats` balance.
use trading_brain.Base.{
  ℕ, ◌+◌, ◌≡◌, refl, subst, ◌&&◌, not, arith, Result, ok, err, if_ind, Option-cases, inl, inr,
}
use trading_brain.Ai.Kinds.{ErrorKind}
use trading_brain.Ai.Schemas.{
  Name, AiRequest, Payload, payload, AiRoutingDecision, AiResponse, AiCost, context_size,
}
use trading_brain.Ai.Budget
use trading_brain.Ai.Pricing.{project}
use trading_brain.Ai.Limiter
use trading_brain.Ai.Cache
use trading_brain.Ai.Gateway.{
  GatewayStats, Settings, Gateway, Clock, Answer, Outcome, record_usage, call_provider, account,
  call_and_account, within_budget, routed_invoke, cached_or_routed, chain, fail, invoke, on_ok,
  rate_key,
}

abbrev won : Result ErrorKind AiResponse → ℕ
won (ok r) = 1
won (err e) = 0

-- What a step that began with the counters `s` has done to them, by how it ended.
record IsCounted (s : GatewayStats) (t : GatewayStats) (served : ℕ) : Type 0 where
  requests : t.requests ≡ s.requests
  failed : t.failed ≡ s.failed
  answered : t.succeeded + t.cache_hits ≡ s.succeeded + s.cache_hits + served
  placed :
      t.local_calls + t.frontier_calls + s.succeeded
      ≡ s.local_calls + s.frontier_calls + t.succeeded

-- To prove something of two steps in sequence, prove it of the failure and of the second step.
pub on_ok_ind {κ} :
    {A : Type 0} (Q : Outcome → Type κ) (m : Gateway × Result ErrorKind A)
    (f : A → Gateway → Outcome)
    → ((e : ErrorKind) → m.1 ≡ err e → Q (m.0, err e))
    → ((a : A) → m.1 ≡ ok a → Q (f a m.0))
    → Q (on_ok m f)
on_ok_ind Q (g, ok a) f failed returned = returned a refl
on_ok_ind Q (g, err e) f failed returned = failed e refl

IsCounted-refl : (s : GatewayStats) → IsCounted s s 0
IsCounted-refl s = ground arith

IsCounted-blocked :
    (s : GatewayStats) → IsCounted s (record s { blocked_budget = s.blocked_budget + 1 }) 0
IsCounted-blocked s = ground arith

IsCounted-limited :
    (s : GatewayStats) → IsCounted s (record s { blocked_rate_limit = s.blocked_rate_limit + 1 }) 0
IsCounted-limited s = ground arith

IsCounted-cached : (s : GatewayStats) → IsCounted s (record s { cache_hits = s.cache_hits + 1 }) 1
IsCounted-cached s = ground arith

module _ (settings : Settings) (digest : Payload → ℕ)
    (answer : Name → Name → AiRequest → ℕ → Answer) where
  abbrev Counted : Gateway → Outcome → Type 0
  Counted g o = IsCounted g.stats o.0.stats (won o.1)

  stats-call_provider :
      (request : AiRequest) (d : AiRoutingDecision) (g : Gateway)
      → (call_provider settings digest answer request d g).0.stats ≡ g.stats
  unfolding call_provider
  stats-call_provider request d g = ground arith

  account-Counted :
      (request : AiRequest) (f : ℕ) (clock : Clock) (d : AiRoutingDecision) (r : AiResponse)
      (g : Gateway)
      → Counted g (account settings digest answer request f clock d r g)
  unfolding account record_usage
  account-Counted request f clock d r g = ground arith

  call_and_account-Counted :
      (request : AiRequest) (f key : ℕ) (clock : Clock) (d : AiRoutingDecision) (g : Gateway)
      → Counted g (call_and_account settings digest answer request f key clock d g)
  unfolding call_and_account
  call_and_account-Counted request f key clock d g =
      on_ok_ind (Counted g) (call_provider settings digest answer request d (with_hit g))
        (account settings digest answer request f clock d)
        (λ e failed. rw (stats-call_provider request d (with_hit g)) (IsCounted-refl g.stats))
        (λ r returned.
          let o = call_provider settings digest answer request d (with_hit g) in
          subst
            (λ s.
              let t = account settings digest answer request f clock d r o.0 in
              IsCounted s t.0.stats (won t.1))
            (stats-call_provider request d (with_hit g)) (account-Counted request f clock d r o.0))
    where
      with_hit : Gateway → Gateway
      with_hit g = record g { limiter = Limiter.record_hit key clock.hit g.limiter }

  within_budget-Counted :
      (request : AiRequest) (f key : ℕ) (clock : Clock) (d : AiRoutingDecision) (g : Gateway)
      → Counted g (within_budget settings digest answer request f key clock d g)
  unfolding within_budget record_usage
  within_budget-Counted request f key clock d g =
      let projected : AiCost =
        project d.model (context_size request) request.policy.max_output_tokens settings.pricing in
      let (budget, verdict) = Budget.check projected clock.budgeted g.budget in
      if_ind (Counted g) (not projected.known && not settings.ai_allow_unpriced_models)
        (λ _. IsCounted-refl g.stats)
        (λ _.
          if_ind (Counted g) (not (Budget.allowed verdict)) (λ _. IsCounted-blocked g.stats)
            (λ _. call_and_account-Counted request f key clock d (record g { budget = budget })))

  routed_invoke-Counted :
      (request : AiRequest) (f key : ℕ) (clock : Clock) (g : Gateway)
      → Counted g (routed_invoke settings digest answer request f key clock g)
  unfolding routed_invoke
  routed_invoke-Counted request f key clock g =
      on_ok_ind (Counted g) _ (within_budget settings digest answer request f key clock)
        (λ e failed. IsCounted-refl g.stats)
        (λ d decided. within_budget-Counted request f key clock d _)

  cached_or_routed-Counted :
      (request : AiRequest) (key : ℕ) (clock : Clock) (g : Gateway)
      → Counted g (cached_or_routed settings digest answer request key clock g)
  unfolding cached_or_routed
  cached_or_routed-Counted request key clock g =
      let f : ℕ = digest (payload request) in
      elim (Option-cases (Cache.get f clock.looked_up g.cache).1) [
        | inl absent ↦
            rw (absent, cached_or_routed)
              (if_ind (Counted g) (Cache.begin f (Cache.get f clock.looked_up g.cache).0).1
                (λ _. routed_invoke-Counted request f key clock _) (λ _. IsCounted-refl g.stats))
        | inr (r, found) ↦ rw (found, cached_or_routed) (IsCounted-cached g.stats)
      ]

  chain-Counted :
      (request : AiRequest) (clock : Clock) (g : Gateway)
      → Counted g (chain settings digest answer request clock g)
  unfolding chain
  chain-Counted request clock g =
      if_ind (Counted g) (not settings.ai_enabled) (λ _. IsCounted-refl g.stats)
        λ _.
          if_ind (Counted g)
            (not (Limiter.check (rate_key request) clock.limited g.limiter).1.allowed)
            (λ _. IsCounted-limited g.stats)
            (λ _.
              cached_or_routed-Counted request (rate_key request) clock (record g {
                limiter = (Limiter.check (rate_key request) clock.limited g.limiter).0;
              }))

  -- Every request is counted once and ends in one way: each call of `invoke` adds one to `requests`
  -- and one to exactly one of `succeeded`, `cache_hits` and `failed`; and every success is counted
  -- once among the local or the frontier calls.
  pub invoke-balances :
      (request : AiRequest) (clock : Clock) (g : Gateway)
      → let s = g.stats in
        let t = (invoke settings digest answer request clock g).0.stats in
        (t.requests ≡ s.requests + 1)
        × (t.succeeded + t.cache_hits + t.failed ≡ s.succeeded + s.cache_hits + s.failed + 1)
        × (t.local_calls + t.frontier_calls + s.succeeded
            ≡ s.local_calls + s.frontier_calls + t.succeeded)
  unfolding invoke fail record_usage
  invoke-balances request clock g = ground (
    arith,
    chain-Counted request clock
        (record g { stats = record g.stats { requests = g.stats.requests + 1 } }),
  )
