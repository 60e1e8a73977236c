-- ===== src/Ai/Gateway/State.antt =====
-- The state of the gateway and what it takes from outside.
use trading_brain.Base.{ℕ, Bool, List, Result}
use trading_brain.Ai.Kinds.{AiTier, ErrorKind}
use trading_brain.Ai.Schemas.{Name, AiResponse}
use trading_brain.Ai.Budget.{BudgetLedger}
use trading_brain.Ai.Limiter.{RateLimiter}
use trading_brain.Ai.Cache.{ResponseCache}
use trading_brain.Ai.Registry.{AiProviderRegistry}
use trading_brain.Ai.Pricing.{PricingTable}
use trading_brain.Ai.Usage.{AiRequestRecord}

-- `GatewayStats`
pub record GatewayStats : Type 0 where
  pub requests : ℕ
  pub succeeded : ℕ
  pub failed : ℕ
  pub blocked_rate_limit : ℕ
  pub blocked_budget : ℕ
  pub cache_hits : ℕ
  pub escalations : ℕ
  pub local_calls : ℕ
  pub frontier_calls : ℕ

abbrev pub no_stats : GatewayStats
no_stats = record {
  requests = 0;
  succeeded = 0;
  failed = 0;
  blocked_rate_limit = 0;
  blocked_budget = 0;
  cache_hits = 0;
  escalations = 0;
  local_calls = 0;
  frontier_calls = 0;
}

-- The recorder is absent, writes a row, or raises.
pub data Recorder : Type 0 where
  absent working failing : Recorder

-- What the gateway reads of the settings.
pub record Settings : Type 0 where
  pub ai_enabled : Bool
  pub ai_allow_unpriced_models : Bool
  pub pricing : PricingTable
  pub recorder : Recorder

-- One call of a provider.
pub record Call : Type 0 where
  pub tier : AiTier
  pub provider : Name
  pub model : Name

pub record Gateway : Type 0 where
  pub registry : AiProviderRegistry
  pub limiter : RateLimiter
  pub budget : BudgetLedger
  pub cache : ResponseCache
  pub stats : GatewayStats
  pub audit : List AiRequestRecord
  pub calls : List Call

-- The readings of the clock, in the order in which a request makes them.
pub record Clock : Type 0 where
  pub limited : ℕ
  pub looked_up : ℕ
  pub pre_routed : ℕ
  pub budgeted : ℕ
  pub hit : ℕ
  pub spent : ℕ
  pub stored : ℕ

-- A provider's answer to one call.
pub data Answer : Type 0 where
  responded : AiResponse → Answer
  raised : ErrorKind → Answer

abbrev pub Outcome : Type 0
Outcome = Gateway × Result ErrorKind AiResponse
