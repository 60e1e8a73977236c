-- ===== src/Ai/Schemas.antt =====
-- Requests, responses and their constructors' checks (ai/schemas.py). Money is in millionths of the
-- currency unit, since every cost is rounded to six places; times are microseconds. Names of
-- providers, models and principals are only compared, so they are numbers; a text is its code points.
use trading_brain.Base.{
  ℕ, ◌+◌, ◌≤◌, ◌≡◌, Bool, true, false, ◌&&◌, ◌||◌, not, Option, none, some, List, [], ltb, leb,
  ◌==◌, length, any, Result, ok, ◌>>◌, raise_if, arith,
}
use trading_brain.Ai.Kinds.{
  AiTier, AiTaskType, LatencyClass, PrivacyClass, RiskClass, FinishReason, ErrorKind,
  EscalationReason, DowngradeReason, is_local_only,
}

abbrev pub Name : Type 0
Name = ℕ

abbrev pub Text : Type 0
Text = List ℕ

pub record AiUsage : Type 0 where
  pub input_tokens : Option ℕ
  pub output_tokens : Option ℕ
  pub cache_read_tokens : Option ℕ
  pub cache_write_tokens : Option ℕ

-- `AIUsage.total_tokens`
pub total_tokens : AiUsage → Option ℕ
total_tokens u = elim u.input_tokens [
  | none ↦ none
  | some i ↦ elim u.output_tokens [ none ↦ none | some o ↦ some (i + o) ]
]

-- An amount, or the statement that there is none.
pub record AiCost : Type 0 where
  pub amount : Option ℕ
  pub known : Bool

-- `AICost.unknown`
abbrev pub unknown : AiCost
unknown = record { amount = none; known = false }

abbrev pub priced : ℕ → AiCost
priced amount = record { amount = some amount; known = true }

pub record AiRequestContext : Type 0 where
  pub request_id : Name
  pub source : Name
  pub principal : Option Name
  pub ticker : Option Name
  pub trigger : Option Name
  pub created_at : ℕ

pub record AiRequestPolicy : Type 0 where
  pub latency : LatencyClass
  pub privacy : PrivacyClass
  pub risk : RiskClass
  pub max_output_tokens : ℕ
  pub allow_frontier : Bool
  pub allow_escalation : Bool
  pub allowed_models : List Name
  pub requested_model : Option Name
  pub timeout : ℕ
  pub max_attempts : ℕ

abbrev pub max_output_tokens_ceiling : ℕ
max_output_tokens_ceiling = 8192

abbrev pub max_input_chars_ceiling : ℕ
max_input_chars_ceiling = 400000

abbrev pub max_attempts_ceiling : ℕ
max_attempts_ceiling = 3

-- `AIRequestPolicy.__post_init__`: the order of the checks is the source's.
unfoldable pub policy_post_init : AiRequestPolicy → Result ErrorKind (Unit {0})
policy_post_init p =
    raise_if (leb p.max_output_tokens 0) ErrorKind.invalid_request
    >> raise_if (ltb max_output_tokens_ceiling p.max_output_tokens) ErrorKind.invalid_request
    >> raise_if (leb p.timeout 0) ErrorKind.invalid_request
    >> raise_if (ltb p.max_attempts 1 || ltb max_attempts_ceiling p.max_attempts)
        ErrorKind.invalid_request
    >> raise_if (is_local_only p.privacy && p.allow_frontier) ErrorKind.invalid_request

pub record AiRequest : Type 0 where
  pub task_type : AiTaskType
  pub prompt : Text
  pub context : AiRequestContext
  pub policy : AiRequestPolicy
  pub system : Text
  pub schema : Option Name
  pub static_prefix : Text
  pub has_contradictions : Bool
  -- in millionths
  pub estimated_complexity : ℕ

-- The code points that `str.strip` removes.
unfoldable pub is_space : ℕ → Bool
is_space c =
    (leb 9 c && leb c 13)
    || (leb 28 c && leb c 32)
    || (c == 0x85)
    || (c == 0xa0)
    || (c == 0x1680)
    || (leb 0x2000 c && leb c 0x200a)
    || (c == 0x2028)
    || (c == 0x2029)
    || (c == 0x202f)
    || (c == 0x205f)
    || (c == 0x3000)

-- `not text.strip()`
unfoldable pub is_blank : Text → Bool
unfolding is_space
is_blank t = not (any (λ c. not (is_space c)) t)

-- `AIRequest.__post_init__`
unfoldable pub request_post_init : AiRequest → Result ErrorKind (Unit {0})
request_post_init r =
    raise_if (is_blank r.prompt) ErrorKind.invalid_request
    >> raise_if (ltb max_input_chars_ceiling (length r.prompt + length r.system))
        ErrorKind.invalid_request
    >> raise_if (ltb 1000000 r.estimated_complexity) ErrorKind.invalid_request

-- `AIRequest.context_size`
abbrev pub context_size : AiRequest → ℕ
context_size r = length r.system + length r.static_prefix + length r.prompt

-- What `AIRequest.fingerprint` serialises: neither the request id nor the time.
pub record Payload : Type 0 where
  pub task : AiTaskType
  pub system : Text
  pub static_prefix : Text
  pub prompt : Text
  pub schema : Option Name
  pub max_output_tokens : ℕ

unfoldable pub payload : AiRequest → Payload
payload r = record {
  task = r.task_type;
  system = r.system;
  static_prefix = r.static_prefix;
  prompt = r.prompt;
  schema = r.schema;
  max_output_tokens = r.policy.max_output_tokens;
}

pub record AiRoutingDecision : Type 0 where
  pub tier : AiTier
  pub provider : Name
  pub model : Name
  pub escalated : Bool
  pub escalation_reason : Option EscalationReason
  pub downgraded : Bool
  pub downgrade_reason : Option DowngradeReason

-- `data` is the extracted record, as the list of its fields.
pub record AiResponse : Type 0 where
  pub request_id : Name
  pub success : Bool
  pub provider : Option Name
  pub model : Option Name
  pub text : Text
  pub fields : Option (List Name)
  pub usage : AiUsage
  pub cost : AiCost
  pub finish_reason : FinishReason
  pub routing : Option AiRoutingDecision
  pub error_kind : Option ErrorKind
  pub cached : Bool
  pub retry_count : ℕ

abbrev no_usage : AiUsage
no_usage = record {
  input_tokens = none;
  output_tokens = none;
  cache_read_tokens = none;
  cache_write_tokens = none;
}

-- `AIResponse.unavailable`; the provider and model "none" are `none`.
unfoldable pub unavailable :
    Name → ErrorKind → Option Name → Option Name → Option AiRoutingDecision → AiResponse
unavailable request_id kind provider model routing = record {
  request_id = request_id;
  success = false;
  provider = provider;
  model = model;
  text = [];
  fields = none;
  usage = no_usage;
  cost = unknown;
  finish_reason = FinishReason.error;
  routing = routing;
  error_kind = some kind;
  cached = false;
  retry_count = 0;
}

-- The truth value of `self.text or self.data`.
abbrev pub has_content : AiResponse → Bool
has_content r =
    not (length r.text == 0) || elim r.fields [ none ↦ false | some d ↦ not (length d == 0) ]

-- `AIResponse.__post_init__`
unfoldable pub response_post_init : AiResponse → Result ErrorKind (Unit {0})
response_post_init r = raise_if (not r.success && has_content r) ErrorKind.invalid_response

-- What a policy that can be constructed satisfies.
pub record IsValidPolicy (p : AiRequestPolicy) : Type 0 where
  pub output_positive : 1 ≤ p.max_output_tokens
  pub output_bounded : p.max_output_tokens ≤ max_output_tokens_ceiling
  pub attempts_positive : 1 ≤ p.max_attempts
  pub attempts_bounded : p.max_attempts ≤ max_attempts_ceiling
  pub private_stays_local : p.privacy ≡ PrivacyClass.local_only → p.allow_frontier ≡ false

pub policy_post_init-IsValidPolicy :
    (p : AiRequestPolicy) → policy_post_init p ≡ ok tt → IsValidPolicy p
unfolding policy_post_init
policy_post_init-IsValidPolicy p h = ground arith
