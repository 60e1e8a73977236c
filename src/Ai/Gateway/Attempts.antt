-- ===== src/Ai/Gateway/Attempts.antt =====
-- The provider calls of one routed request: `_call_provider` and the steps around it.
use trading_brain.Base.{
  ℕ, zero, suc, ◌+◌, ◌≤◌, ◌≡◌, ◌⊎◌, inl, inr, refl, sym, ap, ◌∙◌, subst, false, ◌&&◌, not, List,
  ◌∷◌, arith, length, Result, ok, err, if_ind, Bool-cases,
}
use trading_brain.Ai.Kinds.{AiTier, ErrorKind}
use trading_brain.Ai.Schemas.{
  Name, AiRequest, Payload, AiRoutingDecision, AiResponse, AiCost, context_size,
}
use trading_brain.Ai.Budget
use trading_brain.Ai.Limiter
use trading_brain.Ai.Registry
use trading_brain.Ai.Pricing.{project}
use trading_brain.Ai.Gateway.{
  Settings, Gateway, Clock, Call, Answer, Outcome, is_retryable, call_of, attempt, call_provider,
  account, call_and_account, within_budget, record_usage,
}
use trading_brain.Ai.Gateway.Counters.{on_ok_ind}

abbrev pub repeat : ℕ → Call → List Call → List Call
repeat zero c calls = calls
repeat (suc n) c calls = c ∷ repeat n c calls

repeat-suc : (n : ℕ) (c : Call) (calls : List Call) → repeat n c (c ∷ calls) ≡ c ∷ repeat n c calls
repeat-suc zero c calls = refl
repeat-suc (suc n) c calls = ap (λ r. c ∷ r) (repeat-suc n c calls)

Answer-cases :
    (a : Answer)
    → ((r : AiResponse) × (a ≡ Answer.responded r)) ⊎ ((k : ErrorKind) × (a ≡ Answer.raised k))
Answer-cases (Answer.responded r) = inl (r, refl)
Answer-cases (Answer.raised k) = inr (k, refl)

-- `used` calls were made, of `left`: all of them unless the last one answered or failed for good.
pub record IsTried (c : Call) (calls : List Call) (left made : ℕ)
    (o : List Call × Result ErrorKind AiResponse) : Type 0 where
  pub used : ℕ
  pub bounded : used ≤ left
  pub same : o.0 ≡ repeat used c calls
  pub answered : (r : AiResponse) → o.1 ≡ ok r → r.retry_count + 1 ≡ made + used
  pub gave_up : (e : ErrorKind) → o.1 ≡ err e → (used ≡ left) ⊎ (is_retryable e ≡ false)

-- What a step did to the trace: at most `max_attempts` calls, all to one place, whose tier satisfies
-- `P`.
pub record IsCalled (request : AiRequest) (P : AiTier → Type 0) (before after : List Call)
    : Type 0 where
  pub place : Call
  pub used : ℕ
  pub bounded : used ≤ request.policy.max_attempts
  pub same : after ≡ repeat used place before
  pub permitted : (used ≡ 0) ⊎ P place.tier

nowhere : Call
nowhere = record { tier = AiTier.none; provider = 0; model = 0 }

pub IsCalled-none :
    (request : AiRequest) (P : AiTier → Type 0) {before after : List Call}
    → after ≡ before
    → IsCalled request P before after
IsCalled-none request P same = record {
  place = nowhere;
  used = 0;
  bounded = omega arith;
  same = same;
  permitted = inl refl;
}

module _ (settings : Settings) (digest : Payload → ℕ)
    (answer : Name → Name → AiRequest → ℕ → Answer) where
  -- A request is tried at most `left` times, always at the same tier, provider and model. An answer
  -- counts the tries before it; an error is only returned when every try is used or when it is one
  -- that a retry would not mend.
  pub attempt-IsTried :
      (request : AiRequest) (d : AiRoutingDecision) (left made : ℕ) (last : ErrorKind)
      (calls : List Call)
      → IsTried
          (call_of settings digest answer d)
          calls
          left
          made
          (attempt settings digest answer request d left made last calls)
  unfolding attempt
  attempt-IsTried request d zero made last calls = record {
    used = 0;
    bounded = omega arith;
    same = refl;
    answered = λ r e. cc;
    gave_up = λ e h. inl refl;
  }
  attempt-IsTried request d (suc left) made last calls =
      let c : Call = call_of settings digest answer d in
      elim (Answer-cases (answer d.provider d.model request (length calls))) [
        | inl (r, h) ↦
            rw (h, attempt)
              (record {
                used = 1;
                bounded = omega arith;
                same = refl;
                answered = λ q e. ground (arith, e);
                gave_up = λ e k. cc;
              })
        | inr (k, h) ↦ elim (Bool-cases (is_retryable k)) [
          | inl again ↦
              let t = attempt-IsTried request d left (made + 1) k (c ∷ calls) in
              rw (h, again, attempt)
                (record {
                  used = suc t.used;
                  bounded = omega (arith, t.bounded);
                  same = t.same ∙ repeat-suc t.used c calls;
                  answered = λ q e. omega (arith, t.answered q e);
                  gave_up = λ e g. ground (arith, t.gave_up e g);
                })
          | inr final ↦
              rw (h, final, attempt)
                (record {
                  used = 1;
                  bounded = omega arith;
                  same = refl;
                  answered = λ q e. cc;
                  gave_up = λ e g. inr (ground (arith, final, g));
                })
        ]
      ]

  get-IsCalled :
      (request : AiRequest) (P : AiTier → Type 0) (d : AiRoutingDecision) (g : Gateway)
      → P d.tier
      → IsCalled request P g.calls (call_provider settings digest answer request d g).0.calls
  unfolding call_provider
  get-IsCalled request P d g permitted =
      on_ok_ind (λ (o : Outcome). IsCalled request P g.calls o.0.calls)
        (
          record g { registry = (Registry.get d.provider g.registry).0 },
          (Registry.get d.provider g.registry).1,
        )
        _ (λ e failed. IsCalled-none request P refl)
        (λ p found.
          let t =
            attempt-IsTried request d request.policy.max_attempts 0 ErrorKind.provider_unavailable
              g.calls in
          record {
            place = call_of settings digest answer d;
            used = t.used;
            bounded = t.bounded;
            same = t.same;
            permitted = inr permitted;
          })

  calls-account :
      (request : AiRequest) (f : ℕ) (clock : Clock) (d : AiRoutingDecision) (r : AiResponse)
      (h : Gateway)
      → (account settings digest answer request f clock d r h).0.calls ≡ h.calls
  unfolding account record_usage
  calls-account request f clock d r h = refl

  -- Steps 6 and 7 call a provider at most `max_attempts` times, at the tier of the decision.
  call_and_account-IsCalled :
      (request : AiRequest) (P : AiTier → Type 0) (f key : ℕ) (clock : Clock)
      (d : AiRoutingDecision) (g : Gateway)
      → P d.tier
      → IsCalled request P g.calls
          (call_and_account settings digest answer request f key clock d g).0.calls
  unfolding call_and_account
  call_and_account-IsCalled request P f key clock d g permitted =
      on_ok_ind (λ (o : Outcome). IsCalled request P g.calls o.0.calls)
        (call_provider settings digest answer request d
          (record g { limiter = Limiter.record_hit key clock.hit g.limiter }))
        (account settings digest answer request f clock d) (λ e failed. kept refl)
        (λ r returned. kept (calls-account request f clock d r _))
    where
      kept :
          {after : List Call}
          → after
            ≡ (call_provider settings digest answer request d
                (record g { limiter = Limiter.record_hit key clock.hit g.limiter })).0.calls
          → IsCalled request P g.calls after
      kept same =
          let t =
            get-IsCalled request P d
              (record g { limiter = Limiter.record_hit key clock.hit g.limiter }) permitted in
          subst (IsCalled request P g.calls) (sym same) t

  pub within_budget-IsCalled :
      (request : AiRequest) (P : AiTier → Type 0) (f key : ℕ) (clock : Clock)
      (d : AiRoutingDecision) (g : Gateway)
      → P d.tier
      → IsCalled request P g.calls
          (within_budget settings digest answer request f key clock d g).0.calls
  unfolding within_budget record_usage
  within_budget-IsCalled request P f key clock d g permitted =
      let projected : AiCost =
        project d.model (context_size request) request.policy.max_output_tokens settings.pricing in
      let (budget, verdict) = Budget.check projected clock.budgeted g.budget in
      if_ind (λ (o : Outcome). IsCalled request P g.calls o.0.calls)
        (not projected.known && not settings.ai_allow_unpriced_models)
        (λ _. IsCalled-none request P refl)
        (λ _.
          if_ind (λ (o : Outcome). IsCalled request P g.calls o.0.calls)
            (not (Budget.allowed verdict)) (λ _. IsCalled-none request P refl)
            (λ _.
              call_and_account-IsCalled request P f key clock d (record g { budget = budget })
                permitted))
