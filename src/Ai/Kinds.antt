-- ===== src/Ai/Kinds.antt =====
-- The closed enumerations of ai/schemas.py, and the reasons that a routing decision records.
use mathlib.Core.Bool.{Bool, true, false}

pub data AiTier : Type 0 where
  none local frontier frontier_high : AiTier

pub data AiTaskType : Type 0 where
  research_synthesis thesis_review journal_review summarization classification : AiTaskType
  entity_extraction : AiTaskType

pub data LatencyClass : Type 0 where
  interactive background : LatencyClass

pub data PrivacyClass : Type 0 where
  normal local_only : PrivacyClass

pub data RiskClass : Type 0 where
  low medium high : RiskClass

pub data FinishReason : Type 0 where
  complete max_tokens refusal error : FinishReason

-- `AIError.kind` of each class, and the kind that the gateway gives to any other exception.
pub data ErrorKind : Type 0 where
  invalid_request invalid_response provider_unavailable provider_auth rate_limited : ErrorKind
  budget_exceeded rate_limit_exceeded no_route policy_violation internal_error : ErrorKind

pub data EscalationReason : Type 0 where
  contradictions high_risk complexity : EscalationReason

pub data DowngradeReason : Type 0 where
  near_budget forbidden_by_privacy forbidden_by_policy : DowngradeReason

-- `tier is AITier.LOCAL`
abbrev pub is_local : AiTier → Bool
is_local AiTier.local = true
is_local _ = false

abbrev pub is_frontier : AiTier → Bool
is_frontier AiTier.frontier = true
is_frontier _ = false

abbrev pub is_frontier_high : AiTier → Bool
is_frontier_high AiTier.frontier_high = true
is_frontier_high _ = false

abbrev pub same_tier : AiTier → AiTier → Bool
same_tier AiTier.none AiTier.none = true
same_tier AiTier.local AiTier.local = true
same_tier AiTier.frontier AiTier.frontier = true
same_tier AiTier.frontier_high AiTier.frontier_high = true
same_tier _ _ = false

abbrev pub is_local_only : PrivacyClass → Bool
is_local_only PrivacyClass.local_only = true
is_local_only _ = false

abbrev pub is_high : RiskClass → Bool
is_high RiskClass.high = true
is_high _ = false
