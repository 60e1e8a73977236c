-- ===== src/Ai/Gateway/Effects.antt =====
-- What a request leaves behind in the cache and in the audit trail.
use trading_brain.Base.{
  ℕ, ◌+◌, ◌≡◌, inl, inr, refl, sym, subst, ap, ◌∙◌, Bool, true, false, if◌then◌else◌, ◌&&◌, not,
  arith, none, ok, err, Option-cases, length,
}
use trading_brain.Ai.Schemas.{
  Name, AiRequest, Payload, payload, AiRoutingDecision, AiCost, unknown, unavailable,
}
use trading_brain.Ai.Budget
use trading_brain.Ai.Budget.Ceiling.{unknown_cost_ignored}
use trading_brain.Ai.Limiter
use trading_brain.Ai.Cache
use trading_brain.Ai.Cache.{is_in_flight, task_cache_ttl}
use trading_brain.Ai.Cache.Laws.{begin-end}
use trading_brain.Ai.Router.{route}
use trading_brain.Ai.Gateway.{
  Settings, Recorder, Gateway, Clock, Answer, Outcome, within_budget, routed_invoke,
  cached_or_routed, chain, fail, invoke, settled, on_ok, rate_key,
}
use trading_brain.Ai.Gateway.Counters.{on_ok_ind}
use trading_brain.Ai.Gateway.Branches.{
  projected_cost, is_over, is_over_if_routed, is_found, held, is_first, is_hit, is_over_budget,
  Tidy-guarded, Tidy-let_in,
}
use trading_brain.Ai.Gateway.Rows.{
  IsTidy, Tidy, record_usage-row, Tidy-blocked, Tidy-call_and_account, in_flight-get, in_flight-end,
  Tidy-unchanged,
}

module _ (settings : Settings) (digest : Payload → ℕ)
    (answer : Name → Name → AiRequest → ℕ → Answer) where
  -- The router is always told that the budget is in order: the state it is given is that of a cost
  -- that is not known, so however near a ceiling the spend is, no request is routed to a cheaper tier
  -- for it.
  pub routed_invoke-never_degraded :
      (request : AiRequest) (fingerprint key : ℕ) (clock : Clock) (g : Gateway)
      → routed_invoke settings digest answer request fingerprint key clock g ≡ (
          let (registry, decided) = route request false g.registry in
          on_ok
            (record g { registry = registry }, decided)
            (within_budget settings digest answer request fingerprint key clock))
  unfolding routed_invoke
  routed_invoke-never_degraded request f key clock g =
      ground (arith, unknown_cost_ignored unknown clock.pre_routed g.budget refl)

module _ (settings : Settings) (digest : Payload → ℕ)
    (answer : Name → Name → AiRequest → ℕ → Answer)
    (writes : settings.recorder ≡ Recorder.working) where
  Tidy-within_budget :
      (request : AiRequest) (f key : ℕ) (clock : Clock) (d : AiRoutingDecision) (g : Gateway)
      → Tidy settings digest answer writes false
          (is_over settings digest request clock g d)
          g
          (within_budget settings digest answer request f key clock d g)
  unfolding within_budget
  Tidy-within_budget request f key clock d g =
      let projected : AiCost = projected_cost settings digest request d in
      let (budget, verdict) = Budget.check projected clock.budgeted g.budget in
      let t =
        Tidy-call_and_account settings digest answer writes request f key clock d
          (record g { budget = budget }) in
      Tidy-guarded settings digest answer writes
        (not projected.known && not settings.ai_allow_unpriced_models)
        (not (Budget.allowed verdict)) g _ _ _
        (Tidy-unchanged settings digest answer writes g g refl refl refl)
        (Tidy-blocked settings digest answer writes request d g _ refl refl refl)
        (record { claims = t.claims; hits = t.hits; blocked = t.blocked; rows = t.rows })

  Tidy-routed_invoke :
      (request : AiRequest) (f key : ℕ) (clock : Clock) (g : Gateway)
      → Tidy settings digest answer writes false
          (is_over_if_routed settings digest request clock g (route request false g.registry).1)
          g
          (routed_invoke settings digest answer request f key clock g)
  Tidy-routed_invoke request f key clock g =
      let decided = route request false g.registry in
      let over : Bool = is_over_if_routed settings digest request clock g decided.1 in
      subst (Tidy settings digest answer writes false over g)
        (sym (routed_invoke-never_degraded settings digest answer request f key clock g))
        (on_ok_ind (Tidy settings digest answer writes false over g)
          (record g { registry = decided.0 }, decided.1)
          (within_budget settings digest answer request f key clock)
          (λ e failed.
            subst
              (λ m.
                Tidy settings digest answer writes false
                  (is_over_if_routed settings digest request clock g m) g
                  (record g { registry = decided.0 }, err e))
              (sym failed) (Tidy-unchanged settings digest answer writes g _ refl refl refl))
          (λ d chosen.
            let t = Tidy-within_budget request f key clock d (record g { registry = decided.0 }) in
            subst
              (λ m.
                Tidy settings digest answer writes false
                  (is_over_if_routed settings digest request clock g m) g
                  (within_budget settings digest answer request f key clock d
                    (record g { registry = decided.0 })))
              (sym chosen)
              (record { claims = t.claims; hits = t.hits; blocked = t.blocked; rows = t.rows })))

  Tidy-cached_or_routed :
      (request : AiRequest) (key : ℕ) (clock : Clock) (g : Gateway)
      → Tidy settings digest answer writes
          (is_found settings digest (held settings digest request clock g))
          (not (is_found settings digest (held settings digest request clock g))
            && (is_first settings digest request clock g
                && is_over_if_routed settings digest request clock g
                    (route request false g.registry).1))
          g
          (cached_or_routed settings digest answer request key clock g)
  unfolding cached_or_routed
  Tidy-cached_or_routed request key clock g =
      let f : ℕ = digest (payload request) in
      let looked : Cache.ResponseCache = (Cache.get f clock.looked_up g.cache).0 in
      let claimed : Cache.ResponseCache = (Cache.begin f looked).0 in
      elim (Option-cases (Cache.get f clock.looked_up g.cache).1) [
        | inl absent ↦
            rw (absent, cached_or_routed)
              (if_tidy (Cache.begin f looked).1
                (is_over_if_routed settings digest request clock g
                  (route request false g.registry).1)
                _ _
                (λ first.
                  let o =
                    routed_invoke settings digest answer request f key clock
                      (record g { cache = claimed }) in
                  let t = Tidy-routed_invoke request f key clock (record g { cache = claimed }) in
                  record {
                    claims =
                        in_flight-end settings digest answer writes f o.0.cache claimed t.claims
                        ∙ ap (λ c. c.in_flight) ((begin-end f looked).3 first)
                        ∙ in_flight-get settings digest answer writes f clock.looked_up g.cache;
                    hits = t.hits;
                    blocked = t.blocked;
                    rows = t.rows;
                  })
                (Tidy-unchanged settings digest answer writes g _
                  (in_flight-get settings digest answer writes f clock.looked_up g.cache) refl
                  refl))
        | inr (r, found) ↦
            rw (found, cached_or_routed)
              (record {
                claims = in_flight-get settings digest answer writes f clock.looked_up g.cache;
                hits = refl;
                blocked = omega arith;
                rows = omega arith;
              })
      ]
    where
      if_tidy :
          (first over : Bool) (x y : Outcome)
          → (first ≡ true → Tidy settings digest answer writes false over g x)
          → Tidy settings digest answer writes false false g y
          → Tidy settings digest answer writes false (first && over) g (if first then x else y)
      if_tidy true over x y hx hy = hx refl
      if_tidy false over x y hx hy = hy

  Tidy-chain :
      (request : AiRequest) (clock : Clock) (g : Gateway)
      → Tidy settings digest answer writes
          (is_hit settings digest request clock g)
          (is_over_budget settings digest request clock g)
          g
          (chain settings digest answer request clock g)
  unfolding chain
  Tidy-chain request clock g =
      let limited = Limiter.check (rate_key request) clock.limited g.limiter in
      let t =
        Tidy-cached_or_routed request (rate_key request) clock (record g { limiter = limited.0 }) in
      Tidy-let_in settings digest answer writes settings.ai_enabled limited.1.allowed
        (is_found settings digest (held settings digest request clock g))
        (not (is_found settings digest (held settings digest request clock g))
          && (is_first settings digest request clock g
              && is_over_if_routed settings digest request clock g
                  (route request false g.registry).1))
        g _ _ _ (Tidy-unchanged settings digest answer writes g g refl refl refl)
        (record { claims = refl; hits = omega arith; blocked = omega arith; rows = omega arith })
        (record { claims = t.claims; hits = t.hits; blocked = t.blocked; rows = t.rows })

  Tidy-settled :
      (request : AiRequest) (hit over : Bool) (g h : Gateway) (o : Outcome)
      → h.cache ≡ g.cache
      → h.audit ≡ g.audit
      → h.stats.cache_hits ≡ g.stats.cache_hits
      → h.stats.blocked_budget ≡ g.stats.blocked_budget
      → Tidy settings digest answer writes hit over h o
      → IsTidy hit over g (settled settings digest answer request o).0 1
  unfolding fail
  Tidy-settled request hit over g h (t, ok r) cache audit hits blocked tidy = record {
    claims = tidy.claims ∙ ap (λ c. c.in_flight) cache;
    hits = omega (arith, tidy.hits, hits);
    blocked = omega (arith, tidy.blocked, blocked);
    rows = omega (arith, tidy.rows, ap length audit);
  }
  Tidy-settled request hit over g h (t, err e) cache audit hits blocked tidy =
      let failed : Gateway = record t { stats = record t.stats { failed = t.stats.failed + 1 } } in
      let (same_cache, same_stats, row) =
        record_usage-row settings digest answer writes request
          (unavailable request.context.request_id e none none none) failed in
      record {
        claims = ap (λ c. c.in_flight) same_cache ∙ tidy.claims ∙ ap (λ c. c.in_flight) cache;
        hits = omega (arith, tidy.hits, hits, ap (λ s. s.cache_hits) same_stats);
        blocked = omega (arith, tidy.blocked, blocked, ap (λ s. s.blocked_budget) same_stats);
        rows = omega (arith, tidy.rows, row, ap length audit);
      }

  -- While the recorder works, a request that ends puts back every claim on a fingerprint, whichever
  -- way it ends. One that is let in and finds its answer in the cache counts one hit and writes no audit
  -- row. One that gets as far as a projected cost that the budget refuses counts one blocked and writes
  -- two rows. Any other request, one for a model without a price that is refused as such included,
  -- counts neither and writes one row.
  pub invoke-IsTidy :
      (request : AiRequest) (clock : Clock) (g : Gateway)
      → IsTidy
          (is_hit settings digest request clock g)
          (is_over_budget settings digest request clock g)
          g
          (invoke settings digest answer request clock g).0
          1
  unfolding invoke
  invoke-IsTidy request clock g =
      Tidy-settled request (is_hit settings digest request clock g)
        (is_over_budget settings digest request clock g) g _ _ refl refl refl refl
        (Tidy-chain request clock
          (record g { stats = record g.stats { requests = g.stats.requests + 1 } }))
