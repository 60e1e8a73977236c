-- ===== src/Ai/Tests/Policies.antt =====
-- The policies around the gateway on concrete inputs.
use trading_brain.Base.{
  ℕ, ◌+◌, ◌*◌, ◌≤◌, ◌≡◌, refl, Bool, true, false, ◌&&◌, ltb, leb, ◌==◌, any, All, none, some, List,
  [], ◌∷◌, arith, if◌then◌else◌,
}
use trading_brain.Ai.Kinds.{AiTier, same_tier}
use trading_brain.Ai.Schemas.{priced, AiRequest}
use trading_brain.Ai.Budget
use trading_brain.Ai.Budget.{BudgetLedger, budget_ledger, spent, allowed, known_amount}
use trading_brain.Ai.Budget.Ceiling.{
  spent-record_cost-le, check_state, judged, interleaved_checks_overspend,
}
use trading_brain.Ai.Limiter.Bounds.{IsWithinLimits, run, run-IsWithinLimits}
use trading_brain.Ai.Cache
use trading_brain.Ai.Cache.{ResponseCache}
use trading_brain.Ai.Cache.Laws.{get-put}
use trading_brain.Ai.Registry.{
  AiModel, AiProviderRegistry, register, models_for_tier, disable_all, available, Provider,
  is_disabled, disable, enable,
}
use trading_brain.Ai.Registry
use trading_brain.Ai.Router
use trading_brain.Ai.Router.{plan, route, select_model, base_tier, index}
use trading_brain.Ai.Router.Selection.{select_model-legitimate, IsPermitted, IsMeant}
use trading_brain.Ai.Usage.{AiRequestRecord, UsageSummary, audit_row}
use trading_brain.Ai.Tests.{large_model, registry, policy, request, limiter, gateway, response}

check_state_example :
    (Budget.check (priced 500000) 60 gateway.budget).1.state ≡ judged 500000 60 gateway.budget
check_state_example = check_state 500000 60 gateway.budget (priced 500000) refl

spent-record_cost-le_example :
    All
      (λ w. spent 60 w ≤ w.limit)
      (Budget.record_cost
        (priced 300000)
        60
        (Budget.check (priced 500000) 60 gateway.budget).0).windows
unfolding Budget.check Budget.check_amount Budget.check_windows Budget.scan Budget.prune
    Budget.pop_while
spent-record_cost-le_example =
    spent-record_cost-le (priced 500000) (priced 300000) 500000 300000 60 gateway.budget refl refl
      (omega arith) refl

interleaved_checks_overspend_example :
    let before = budget_ledger 0 100 0 0 1000000 in
    let first = Budget.check (priced 60) 5 before in
    let second = Budget.check (priced 60) 5 first.0 in
    let after = Budget.record_cost (priced 60) 5 (Budget.record_cost (priced 60) 5 second.0) in
    (allowed first.1 ≡ true)
    × (allowed second.1 ≡ true)
    × (any (λ w. ltb w.limit (spent 5 w)) after.windows ≡ true)
interleaved_checks_overspend_example =
    interleaved_checks_overspend 100 60 5 (omega arith) (omega arith) (omega arith)

abbrev requests : List (ℕ × ℕ × Bool)
requests = (3, 10, true) ∷ (4, 20, true) ∷ (3, 30, false) ∷ (3, 40, true) ∷ []

run-IsWithinLimits_example : IsWithinLimits 40 (run requests limiter)
run-IsWithinLimits_example =
    run-IsWithinLimits 0 requests limiter
      (omega arith, (omega arith, (omega arith, (omega arith, tt))))
      (record { minutely = λ key h. omega arith; hourly = λ key h. omega arith })

abbrev cache : ResponseCache
cache = record { default_ttl = 600; entries = []; in_flight = 9 ∷ [] }

get-put_example : (Cache.get 5 70 (Cache.put 5 response (some 60) 50 cache)).1 ≡ (
    if response.success && ltb 0 60 && (5 == 5)
    then (if leb (50 + 60 * 1000000) 70 then none else some response)
    else (Cache.get 5 70 cache).1)
get-put_example = get-put 5 5 response (some 60) 50 70 cache

select_model-legitimate_example :
    (same_tier large_model.tier AiTier.frontier ≡ true)
    × IsPermitted request large_model
    × IsMeant request large_model
unfolding models_for_tier Registry.collect available Registry.get Registry.construct select_model
    Router.restrict Router.choose Router.prefer_tools
select_model-legitimate_example = select_model-legitimate request AiTier.frontier registry refl

abbrev wanting_request : AiRequest
wanting_request = record request { policy = record policy { requested_model = some 21 } }

abbrev tiny_model : AiModel
tiny_model = record large_model { name = 21; max_context_chars = 1 }

abbrev rows : List AiRequestRecord
rows = audit_row request response ∷ []

abbrev summary : UsageSummary
summary = record {
  calls = 1;
  succeeded = 1;
  failed = 0;
  blocked = 0;
  cache_hits = 0;
  escalations = 0;
  local_calls = 0;
  frontier_calls = 1;
  input_tokens = some 40;
  output_tokens = some 20;
  cache_read_tokens = none;
  estimated_cost = some 420;
  calls_with_unknown_cost = 0;
}
