-- ===== src/Ai/Escalation.antt =====
-- ai/escalation.py: whether a detected change justifies a call of a language model. The texts of reasons
-- and the details are left out.
pub mod Triggers
use trading_brain.Base.{Bool, true, false, Option, none, some, List, [], ◌∷◌, map, if◌then◌else◌, ℕ}
use trading_brain.Quant.Floats.{Floats}
use trading_brain.Brain.Changes.{ChangeType, DetectedChange}
use trading_brain.Ai.Kinds.{AiTier, AiTaskType, RiskClass}

pub data TriggerKind : Type 0 where
  earnings_release material_announcement regime_shift thesis_contradiction : TriggerKind
  fundamental_change unexpected_risk_event research_conflict high_confidence_anomaly : TriggerKind

pub data EscalationOutcome : Type 0 where
  no_action deterministic_only local frontier frontier_high : EscalationOutcome

-- `AITrigger`
pub record AiTrigger (num : Floats) : Type 0 where
  pub kind : Option TriggerKind
  pub outcome : EscalationOutcome
  pub asset_id : ℕ
  pub materiality : num.F
  pub task_type : Option AiTaskType
  pub risk : RiskClass
  pub detected_at : ℕ

-- `NON_ESCALATING`
abbrev pub is_non_escalating : ChangeType → Bool
is_non_escalating ChangeType.price_shock = true
is_non_escalating ChangeType.large_move = true
is_non_escalating ChangeType.stale_research = true
is_non_escalating _ = false

-- `_TRIGGER_FOR.get`
abbrev pub trigger_for : ChangeType → Option TriggerKind
trigger_for ChangeType.earnings_release = some TriggerKind.earnings_release
trigger_for ChangeType.regime_change = some TriggerKind.regime_shift
trigger_for ChangeType.thesis_violation = some TriggerKind.thesis_contradiction
trigger_for _ = none

abbrev pub is_thesis_contradiction : TriggerKind → Bool
is_thesis_contradiction TriggerKind.thesis_contradiction = true
is_thesis_contradiction _ = false

-- `AITrigger.escalate` and `AITrigger.tier`
abbrev pub escalates : EscalationOutcome → Bool
escalates EscalationOutcome.local = true
escalates EscalationOutcome.frontier = true
escalates EscalationOutcome.frontier_high = true
escalates _ = false

abbrev pub tier_of : EscalationOutcome → Option AiTier
tier_of EscalationOutcome.local = some AiTier.local
tier_of EscalationOutcome.frontier = some AiTier.frontier
tier_of EscalationOutcome.frontier_high = some AiTier.frontier_high
tier_of _ = none

module _ (num : Floats) where
  abbrev pub trigger_of :
      DetectedChange num
      → Option TriggerKind
      → EscalationOutcome
      → Option AiTaskType
      → RiskClass
      → AiTrigger num
  trigger_of change kind outcome task_type risk = record {
    kind = kind;
    outcome = outcome;
    asset_id = change.asset_id;
    materiality = change.magnitude;
    task_type = task_type;
    risk = risk;
    detected_at = change.detected_at;
  }

  -- `THESIS_MATERIALITY_THRESHOLD` and `MATERIALITY_THRESHOLD`
  abbrev pub threshold_of : TriggerKind → num.F
  threshold_of kind =
      num.div (num.whole (if is_thesis_contradiction kind then 4 else 6)) (num.whole 10)

  -- The tier that a material change needs.
  unfoldable pub material : DetectedChange num → Bool → TriggerKind → AiTrigger num
  material change has_contradictions kind =
      if is_thesis_contradiction kind
      then trigger_of change (some kind) EscalationOutcome.frontier_high
          (some AiTaskType.thesis_review) RiskClass.high
      else if has_contradictions
      then trigger_of change (some kind) EscalationOutcome.frontier_high
          (some AiTaskType.research_synthesis) RiskClass.high
      else trigger_of change (some kind) EscalationOutcome.frontier
          (some AiTaskType.research_synthesis) RiskClass.medium

  -- `evaluate`
  unfoldable pub evaluate : DetectedChange num → Bool → AiTrigger num
  unfolding material
  evaluate change has_contradictions =
      if is_non_escalating change.change_type
      then trigger_of change none EscalationOutcome.deterministic_only none RiskClass.medium
      else elim (trigger_for change.change_type) [
        | none ↦ trigger_of change none EscalationOutcome.no_action none RiskClass.medium
        | some kind ↦
            if num.lt change.magnitude (threshold_of kind)
            then trigger_of change (some kind) EscalationOutcome.no_action none RiskClass.medium
            else material change has_contradictions kind
      ]

  -- Before the first that is less material: `sorted(..., reverse=True)` keeps the order of equals.
  unfoldable pub place : AiTrigger num → List (AiTrigger num) → List (AiTrigger num)
  place t [] = t ∷ []
  place t (u ∷ us) =
      let rest = place t us in if num.lt t.materiality u.materiality then u ∷ rest else t ∷ u ∷ us

  unfoldable pub by_materiality : List (AiTrigger num) → List (AiTrigger num)
  unfolding place
  by_materiality [] = []
  by_materiality (t ∷ ts) = place t (by_materiality ts)

  -- `evaluate_all`
  unfoldable pub evaluate_all : List (DetectedChange num) → List (AiTrigger num)
  unfolding evaluate by_materiality
  evaluate_all changes = by_materiality (map (λ c. evaluate c false) changes)
