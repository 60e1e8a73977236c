-- ===== src/Ai/Tests.antt =====
-- The concrete inputs of the AI layer's tests.
mod Requests
mod Policies
mod Packets
use trading_brain.Base.{
  ℕ, ◌+◌, ◌*◌, ◌≤◌, ◌≡◌, ◌⊎◌, refl, Bool, true, false, ◌&&◌, ◌||◌, not, ltb, leb, ◌==◌, any, All,
  none, some, List, [], ◌∷◌, ◌++◌, arith, length, ok, if◌then◌else◌,
}
use trading_brain.Ai.Kinds.{
  AiTier, AiTaskType, LatencyClass, PrivacyClass, RiskClass, FinishReason, ErrorKind, same_tier,
}
use trading_brain.Ai.Schemas.{
  Name, AiUsage, priced, AiRequestPolicy, AiRequest, Payload, AiResponse, AiRoutingDecision,
  policy_post_init, request_post_init, is_blank, is_space,
}
use trading_brain.Ai.Budget
use trading_brain.Ai.Budget.{BudgetLedger, budget_ledger, spent, allowed, known_amount}
use trading_brain.Ai.Budget.Ceiling.{
  spent-record_cost-le, check_state, judged, interleaved_checks_overspend,
}
use trading_brain.Ai.Limiter
use trading_brain.Ai.Limiter.{RateLimiter, hour}
use trading_brain.Ai.Limiter.Bounds.{IsWithinLimits, run, run-IsWithinLimits}
use trading_brain.Ai.Cache
use trading_brain.Ai.Cache.{ResponseCache}
use trading_brain.Ai.Cache.Laws.{get-put}
use trading_brain.Ai.Registry.{
  AiModel, AiProviderRegistry, register, models_for_tier, disable_all, available, Provider,
  is_disabled, disable, enable,
}
use trading_brain.Ai.Registry
use trading_brain.Ai.Router
use trading_brain.Ai.Router.{plan, route, select_model, base_tier, index}
use trading_brain.Ai.Router.Selection.{select_model-legitimate, IsPermitted, IsMeant}
use trading_brain.Ai.Pricing.{PricingTable}
use trading_brain.Ai.Usage.{AiRequestRecord, UsageSummary, audit_row}
use trading_brain.Ai.Gateway.{
  Settings, Recorder, Gateway, Clock, Answer, no_stats, invoke, attempt, routed_invoke,
  within_budget, on_ok,
}
use trading_brain.Ai.Gateway.Counters.{invoke-balances}
use trading_brain.Ai.Gateway.Effects.{invoke-IsTidy, routed_invoke-never_degraded}
use trading_brain.Ai.Gateway.Privacy.{Permitted, invoke-IsCalled}
use trading_brain.Ai.Gateway.Rows.{IsTidy}
use trading_brain.Ai.Gateway.Attempts.{IsTried, attempt-IsTried, IsCalled}

abbrev pub small_model : AiModel
small_model = record {
  name = 11;
  provider = 1;
  tier = AiTier.local;
  max_context_chars = 1000;
  supports_tools = false;
  supports_caching = false;
}

abbrev pub large_model : AiModel
large_model = record {
  name = 12;
  provider = 2;
  tier = AiTier.frontier;
  max_context_chars = 100000;
  supports_tools = true;
  supports_caching = true;
}

abbrev pub empty_registry : AiProviderRegistry
empty_registry = record { registrations = []; disabled = [] }

abbrev pub registry : AiProviderRegistry
registry = record {
  registrations =
      (1, record { name = 1; factory = ok (small_model ∷ []); is_local = true; instance_of = none })
      ∷ (
        2,
        record { name = 2; factory = ok (large_model ∷ []); is_local = false; instance_of = none },
      )
      ∷ [];
  disabled = [];
}

registered :
    (register 2
      (ok (large_model ∷ []))
      false
      (register 1 (ok (small_model ∷ [])) true empty_registry).0).0
    ≡ registry
unfolding register
registered = refl

abbrev pub policy : AiRequestPolicy
policy = record {
  latency = LatencyClass.background;
  privacy = PrivacyClass.normal;
  risk = RiskClass.medium;
  max_output_tokens = 500;
  allow_frontier = true;
  allow_escalation = true;
  allowed_models = [];
  requested_model = none;
  timeout = 60;
  max_attempts = 2;
}

abbrev pub request : AiRequest
request = record {
  task_type = AiTaskType.research_synthesis;
  prompt = 72 ∷ 105 ∷ [];
  context = record {
    request_id = 7;
    source = 1;
    principal = some 3;
    ticker = none;
    trigger = none;
    created_at = 100;
  };
  policy = policy;
  system = [];
  schema = none;
  static_prefix = [];
  has_contradictions = false;
  estimated_complexity = 0;
}

request_is_valid : (policy_post_init policy ≡ ok tt) × (request_post_init request ≡ ok tt)
unfolding policy_post_init request_post_init is_blank is_space
request_is_valid = (refl, refl)

-- The same request, which may not leave the machine.
abbrev pub private_request : AiRequest
private_request = record request {
  policy = record policy { privacy = PrivacyClass.local_only; allow_frontier = false };
}

abbrev pub pricing : PricingTable
pricing =
    (
      12,
      record {
        input_per_mtok = 3000000;
        output_per_mtok = 15000000;
        cache_read_per_mtok = none;
        cache_write_per_mtok = none;
      },
    )
    ∷ []

abbrev pub settings : Settings
settings = record {
  ai_enabled = true;
  ai_allow_unpriced_models = true;
  pricing = pricing;
  recorder = Recorder.working;
}

abbrev pub clock : Clock
clock = record {
  limited = 101;
  looked_up = 102;
  pre_routed = 103;
  budgeted = 104;
  hit = 105;
  spent = 106;
  stored = 107;
}

abbrev pub limiter : RateLimiter
limiter = record { per_minute = 2; per_hour = 10; hits = [] }

abbrev pub gateway : Gateway
gateway = record {
  registry = registry;
  limiter = limiter;
  budget = record {
    per_request = 0;
    warn_ratio = 800000;
    windows =
        record {
          name = Budget.WindowName.hour;
          duration = some 3600000000;
          limit = 1000000;
          entries = (50, 400000) ∷ [];
        }
        ∷ [];
  };
  cache = record { default_ttl = 600; entries = []; in_flight = [] };
  stats = no_stats;
  audit = [];
  calls = [];
}

abbrev pub usage : AiUsage
usage = record {
  input_tokens = some 40;
  output_tokens = some 20;
  cache_read_tokens = none;
  cache_write_tokens = none;
}

abbrev pub response : AiResponse
response = record {
  request_id = 7;
  success = true;
  provider = some 2;
  model = some 12;
  text = 79 ∷ 75 ∷ [];
  fields = none;
  usage = usage;
  cost = priced 420;
  finish_reason = FinishReason.complete;
  routing = none;
  error_kind = none;
  cached = false;
  retry_count = 0;
}

abbrev pub digest : Payload → ℕ
digest p = length p.prompt

-- A provider that fails once and then answers.
abbrev pub answer : Name → Name → AiRequest → ℕ → Answer
answer p m r n =
    if n == 0 then Answer.raised ErrorKind.provider_unavailable else Answer.responded response
