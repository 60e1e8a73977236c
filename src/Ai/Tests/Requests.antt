-- ===== src/Ai/Tests/Requests.antt =====
-- The gateway on concrete inputs.
use trading_brain.Base.{◌+◌, ◌≡◌, refl, false, none, []}
use trading_brain.Ai.Kinds.{AiTier, ErrorKind}
use trading_brain.Ai.Schemas.{AiRoutingDecision}
use trading_brain.Ai.Router.{route}
use trading_brain.Ai.Gateway.{invoke, attempt, routed_invoke, within_budget, on_ok}
use trading_brain.Ai.Gateway.Counters.{invoke-balances}
use trading_brain.Ai.Gateway.Branches.{is_hit, is_over_budget}
use trading_brain.Ai.Gateway.Effects.{invoke-IsTidy, routed_invoke-never_degraded}
use trading_brain.Ai.Gateway.Privacy.{Permitted, invoke-IsCalled}
use trading_brain.Ai.Gateway.Rows.{IsTidy}
use trading_brain.Ai.Gateway.Attempts.{IsTried, attempt-IsTried, IsCalled}
use trading_brain.Ai.Tests.{request, private_request, settings, clock, gateway, digest, answer}

invoke-IsCalled_example :
    IsCalled private_request
      (Permitted private_request)
      []
      (invoke settings digest answer private_request clock gateway).0.calls
invoke-IsCalled_example = invoke-IsCalled settings digest answer private_request clock gateway

invoke-balances_example :
    let s = gateway.stats in
    let t = (invoke settings digest answer request clock gateway).0.stats in
    (t.requests ≡ s.requests + 1)
    × (t.succeeded + t.cache_hits + t.failed ≡ s.succeeded + s.cache_hits + s.failed + 1)
    × (t.local_calls + t.frontier_calls + s.succeeded
        ≡ s.local_calls + s.frontier_calls + t.succeeded)
invoke-balances_example = invoke-balances settings digest answer request clock gateway

invoke-IsTidy_example :
    IsTidy
      (is_hit settings digest request clock gateway)
      (is_over_budget settings digest request clock gateway)
      gateway
      (invoke settings digest answer request clock gateway).0
      1
invoke-IsTidy_example = invoke-IsTidy settings digest answer refl request clock gateway

abbrev decision : AiRoutingDecision
decision = record {
  tier = AiTier.frontier;
  provider = 2;
  model = 12;
  escalated = false;
  escalation_reason = none;
  downgraded = false;
  downgrade_reason = none;
}

attempt-IsTried_example :
    IsTried
      (record { tier = AiTier.frontier; provider = 2; model = 12 })
      []
      2
      0
      (attempt settings digest answer request decision 2 0 ErrorKind.internal_error [])
attempt-IsTried_example =
    attempt-IsTried settings digest answer request decision 2 0 ErrorKind.internal_error []

routed_invoke-never_degraded_example :
    routed_invoke settings digest answer request 2 18 clock gateway ≡ (
      let (r, decided) = route request false gateway.registry in
      on_ok
        (record gateway { registry = r }, decided)
        (within_budget settings digest answer request 2 18 clock))
routed_invoke-never_degraded_example =
    routed_invoke-never_degraded settings digest answer request 2 18 clock gateway
