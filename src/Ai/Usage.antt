-- ===== src/Ai/Usage.antt =====
-- The audit rows of ai/usage.py and their headline figures. A row holds what `record` writes, but for
-- the texts; the aggregates are those that the queries of `usage_summary` compute.
pub mod Totals
use trading_brain.Base.{
  ℕ, ◌+◌, ◌-◌, Bool, true, false, ◌&&◌, not, Option, none, some, List, [], ◌∷◌, leb, ◌==◌,
  if◌then◌else◌, length, keep,
}
use trading_brain.Ai.Kinds.{AiTier, AiTaskType, ErrorKind, FinishReason}
use trading_brain.Ai.Schemas.{Name, AiUsage, AiRequest, AiResponse, AiRoutingDecision, context_size}

-- `models.ai_request.AIRequestRecord`
pub record AiRequestRecord : Type 0 where
  pub request_id : Name
  pub created_at : ℕ
  pub task_type : AiTaskType
  pub principal : Option Name
  pub ticker : Option Name
  pub context_chars : ℕ
  pub tier : Option AiTier
  pub provider : Option Name
  pub model : Option Name
  pub escalated : Bool
  pub downgraded : Bool
  pub usage : AiUsage
  pub estimated_cost : Option ℕ
  pub cost_known : Bool
  pub success : Bool
  pub blocked : Bool
  pub error_kind : Option ErrorKind
  pub finish_reason : FinishReason
  pub retry_count : ℕ
  pub cache_hit : Bool

-- `response.error_kind in {"budget_exceeded", "rate_limit_exceeded"}`
unfoldable pub is_blocked : Option ErrorKind → Bool
is_blocked (some ErrorKind.budget_exceeded) = true
is_blocked (some ErrorKind.rate_limit_exceeded) = true
is_blocked _ = false

abbrev tier_of : Option AiRoutingDecision → Option AiTier
tier_of none = none
tier_of (some d) = some d.tier

abbrev was_escalated : Option AiRoutingDecision → Bool
was_escalated none = false
was_escalated (some d) = d.escalated

abbrev was_downgraded : Option AiRoutingDecision → Bool
was_downgraded none = false
was_downgraded (some d) = d.downgraded

-- `DatabaseUsageRecorder.record`
unfoldable pub audit_row : AiRequest → AiResponse → AiRequestRecord
unfolding is_blocked
audit_row request response = record {
  request_id = response.request_id;
  created_at = request.context.created_at;
  task_type = request.task_type;
  principal = request.context.principal;
  ticker = request.context.ticker;
  context_chars = context_size request;
  tier = tier_of response.routing;
  provider = response.provider;
  model = response.model;
  escalated = was_escalated response.routing;
  downgraded = was_downgraded response.routing;
  usage = response.usage;
  estimated_cost = response.cost.amount;
  cost_known = response.cost.known;
  success = response.success;
  blocked = is_blocked response.error_kind;
  error_kind = response.error_kind;
  finish_reason = response.finish_reason;
  retry_count = response.retry_count;
  cache_hit = response.cached;
}

-- `where(created_at >= since)`
unfoldable pub since_rows : ℕ → List AiRequestRecord → List AiRequestRecord
since_rows since = keep (λ (r : AiRequestRecord). leb since r.created_at)

-- SQL's `sum`, which skips nulls and is null if there is nothing to add.
unfoldable pub sql_sum : (AiRequestRecord → Option ℕ) → List AiRequestRecord → Option ℕ
sql_sum f [] = none
sql_sum f (r ∷ rows) =
    let rest = sql_sum f rows in
    elim (f r) [ none ↦ rest | some n ↦ elim rest [ none ↦ some n | some m ↦ some (n + m) ] ]

abbrev pub count_if : (AiRequestRecord → Bool) → List AiRequestRecord → ℕ
count_if p rows = length (keep p rows)

pub record UsageSummary : Type 0 where
  pub calls : ℕ
  pub succeeded : ℕ
  pub failed : ℕ
  pub blocked : ℕ
  pub cache_hits : ℕ
  pub escalations : ℕ
  pub local_calls : ℕ
  pub frontier_calls : ℕ
  pub input_tokens : Option ℕ
  pub output_tokens : Option ℕ
  pub cache_read_tokens : Option ℕ
  pub estimated_cost : Option ℕ
  pub calls_with_unknown_cost : ℕ

module _ (local : Name) where
  abbrev is_local_row : AiRequestRecord → Bool
  is_local_row r = elim r.provider [ none ↦ false | some p ↦ p == local ]

  -- `usage_summary`, `none` where it reports that nothing was recorded. `local` is the name of the
  -- local provider.
  unfoldable pub usage_summary : ℕ → List AiRequestRecord → Option UsageSummary
  unfolding since_rows sql_sum
  usage_summary since table =
      let rows = since_rows since table in
      if length rows == 0
      then none
      else some (record {
        calls = length rows;
        succeeded = count_if (λ r. r.success) rows;
        failed = length rows - count_if (λ r. r.success) rows;
        blocked = count_if (λ r. r.blocked) rows;
        cache_hits = count_if (λ r. r.cache_hit) rows;
        escalations = count_if (λ r. r.escalated) rows;
        local_calls = count_if is_local_row rows;
        frontier_calls = length rows - count_if is_local_row rows;
        input_tokens = sql_sum (λ r. r.usage.input_tokens) rows;
        output_tokens = sql_sum (λ r. r.usage.output_tokens) rows;
        cache_read_tokens = sql_sum (λ r. r.usage.cache_read_tokens) rows;
        estimated_cost = sql_sum (λ r. r.estimated_cost) rows;
        calls_with_unknown_cost = count_if (λ r. not r.cost_known) rows;
      })

-- `spend_in_window`
unfoldable pub spend_in_window : ℕ → List AiRequestRecord → Option ℕ
unfolding since_rows sql_sum
spend_in_window since table =
    sql_sum (λ r. r.estimated_cost)
      (keep (λ (r : AiRequestRecord). r.cost_known) (since_rows since table))
