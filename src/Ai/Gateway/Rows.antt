-- ===== src/Ai/Gateway/Rows.antt =====
-- What the steps of a request leave behind in the cache and in the audit trail.
use trading_brain.Base.{
  ℕ, ◌+◌, Bool, true, false, ◌≡◌, refl, ap, ◌∙◌, not, arith, Option, Result, ok, err, keep, length,
  length-append, ◌==◌,
}
use trading_brain.Ai.Kinds.{ErrorKind}
use trading_brain.Ai.Schemas.{Name, AiRequest, Payload, AiRoutingDecision, AiResponse}
use trading_brain.Ai.Budget
use trading_brain.Ai.Limiter
use trading_brain.Ai.Cache
use trading_brain.Ai.Cache.{is_in_flight, task_cache_ttl}
use trading_brain.Ai.Gateway.{
  Settings, Recorder, Gateway, Clock, Answer, Outcome, call_provider, account, call_and_account,
  record_usage, cost_of, counted, blocked_response,
}
use trading_brain.Ai.Gateway.Counters.{on_ok_ind}

abbrev pub won : Result ErrorKind AiResponse → ℕ
won (ok r) = 1
won (err e) = 0

abbrev pub one_if : Bool → ℕ
one_if true = 1
one_if false = 0

-- What a step leaves of the claims in the cache, what it counts, and the rows it has written, where `hit`
-- says whether it answers from the cache and `over` whether it finds the projected cost over the budget:
-- one row for a request that is `served`, another for one over the budget, and none for a hit.
pub record IsTidy (hit over : Bool) (g t : Gateway) (served : ℕ) : Type 0 where
  pub claims : t.cache.in_flight ≡ g.cache.in_flight
  pub hits : t.stats.cache_hits ≡ g.stats.cache_hits + one_if hit
  pub blocked : t.stats.blocked_budget ≡ g.stats.blocked_budget + one_if over
  pub rows : length t.audit + one_if hit ≡ length g.audit + served + one_if over

module _ (settings : Settings) (digest : Payload → ℕ)
    (answer : Name → Name → AiRequest → ℕ → Answer)
    (writes : settings.recorder ≡ Recorder.working) where
  abbrev pub Tidy : Bool → Bool → Gateway → Outcome → Type 0
  Tidy hit over g o = IsTidy hit over g o.0 (won o.1)

  pub record_usage-row :
      (request : AiRequest) (r : AiResponse) (g : Gateway)
      → let t = record_usage settings digest answer request r g in
        (t.cache ≡ g.cache) × (t.stats ≡ g.stats) × (length t.audit ≡ length g.audit + 1)
  unfolding record_usage
  record_usage-row request r g = (refl, refl, rw (writes, record_usage) (length-append g.audit _))

  in_flight-put :
      (f : ℕ) (r : AiResponse) (ttl : Option ℕ) (now : ℕ) (c : Cache.ResponseCache)
      → (Cache.put f r ttl now c).in_flight ≡ c.in_flight
  unfolding Cache.put
  in_flight-put f r ttl now c = ground arith

  pub in_flight-get :
      (f now : ℕ) (c : Cache.ResponseCache) → (Cache.get f now c).0.in_flight ≡ c.in_flight
  unfolding Cache.get
  in_flight-get f now c = ground arith

  pub in_flight-end :
      (f : ℕ) (c d : Cache.ResponseCache)
      → c.in_flight ≡ d.in_flight
      → (Cache.end f c).in_flight ≡ (Cache.end f d).in_flight
  unfolding Cache.end
  in_flight-end f c d same = ap (keep (λ g. not (f == g))) same

  Tidy-call_provider :
      (request : AiRequest) (d : AiRoutingDecision) (g : Gateway)
      → let t = (call_provider settings digest answer request d g).0 in
        (t.cache ≡ g.cache) × (t.audit ≡ g.audit) × (t.stats ≡ g.stats)
  unfolding call_provider
  Tidy-call_provider request d g = ground arith

  Tidy-account :
      (request : AiRequest) (f : ℕ) (clock : Clock) (d : AiRoutingDecision) (r : AiResponse)
      (g : Gateway)
      → Tidy false false g (account settings digest answer request f clock d r g)
  unfolding account
  Tidy-account request f clock d r g =
      let priced : AiResponse = record r { cost = cost_of r settings.pricing } in
      let g1 : Gateway = record g {
        budget = Budget.record_cost priced.cost clock.spent g.budget;
        cache = Cache.put f priced (task_cache_ttl request.task_type) clock.stored g.cache;
        stats = counted settings digest answer d g.stats;
      } in
      let (same_cache, same_stats, row) = record_usage-row request priced g1 in
      record {
        claims = ap (λ c. c.in_flight) same_cache ∙ in_flight-put f priced _ clock.stored g.cache;
        hits = omega (arith, ap (λ s. s.cache_hits) same_stats);
        blocked = omega (arith, ap (λ s. s.blocked_budget) same_stats);
        rows = omega (arith, row);
      }

  pub Tidy-call_and_account :
      (request : AiRequest) (f key : ℕ) (clock : Clock) (d : AiRoutingDecision) (g : Gateway)
      → Tidy false false g (call_and_account settings digest answer request f key clock d g)
  unfolding call_and_account
  Tidy-call_and_account request f key clock d g =
      let h : Gateway = record g { limiter = Limiter.record_hit key clock.hit g.limiter } in
      let o = call_provider settings digest answer request d h in
      let (cache, audit, stats) = Tidy-call_provider request d h in
      on_ok_ind (Tidy false false g) o (account settings digest answer request f clock d)
        (λ e failed. record {
          claims = ap (λ c. c.in_flight) cache;
          hits = omega (arith, ap (λ s. s.cache_hits) stats);
          blocked = omega (arith, ap (λ s. s.blocked_budget) stats);
          rows = omega (arith, ap length audit);
        })
        (λ r returned.
          let t = Tidy-account request f clock d r o.0 in
          record {
            claims = t.claims ∙ ap (λ c. c.in_flight) cache;
            hits = omega (arith, t.hits, ap (λ s. s.cache_hits) stats);
            blocked = omega (arith, t.blocked, ap (λ s. s.blocked_budget) stats);
            rows = omega (arith, t.rows, ap length audit);
          })

  pub Tidy-unchanged :
      (g t : Gateway)
      → t.cache.in_flight ≡ g.cache.in_flight
      → t.audit ≡ g.audit
      → t.stats ≡ g.stats
      → IsTidy false false g t 0
  Tidy-unchanged g t claims audit stats = record {
    claims = claims;
    hits = omega (arith, ap (λ s. s.cache_hits) stats);
    blocked = omega (arith, ap (λ s. s.blocked_budget) stats);
    rows = omega (arith, ap length audit);
  }

  pub Tidy-blocked :
      (request : AiRequest) (d : AiRoutingDecision) (g h : Gateway)
      → h.cache ≡ g.cache
      → h.audit ≡ g.audit
      → h.stats ≡ record g.stats { blocked_budget = g.stats.blocked_budget + 1 }
      → IsTidy false true g
          (record_usage settings digest answer request (blocked_response request d) h)
          0
  Tidy-blocked request d g h cache audit stats =
      let (same_cache, same_stats, row) = record_usage-row request (blocked_response request d) h in
      record {
        claims = ap (λ c. c.in_flight) (same_cache ∙ cache);
        hits = omega (arith, ap (λ s. s.cache_hits) (same_stats ∙ stats));
        blocked = omega (arith, ap (λ s. s.blocked_budget) (same_stats ∙ stats));
        rows = omega (arith, row, ap length audit);
      }
