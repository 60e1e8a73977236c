-- ===== src/Ai/Router.antt =====
-- `AIRouter` of ai/router.py: the tier that a request is answered at, and the model.
pub mod Tiers
pub mod Selection
use trading_brain.Base.{
  ℕ, ◌+◌, ◌-◌, Bool, true, false, ◌&&◌, not, Option, none, some, List, [], ◌∷◌, min, leb, ◌==◌,
  if◌then◌else◌, keep, any, Result, ok, err, ◌>>=◌,
}
use trading_brain.Ai.Kinds.{
  AiTier, AiTaskType, RiskClass, ErrorKind, EscalationReason, DowngradeReason, is_local,
  is_frontier, is_frontier_high, same_tier, is_local_only, is_high,
}
use trading_brain.Ai.Schemas.{Name, AiRequest, AiRoutingDecision, context_size}
use trading_brain.Ai.Registry.{AiModel, AiProviderRegistry, models_for_tier}

-- `BASE_TIER`: every task of the closed enumeration has an entry.
unfoldable pub base_tier : AiTaskType → AiTier
base_tier AiTaskType.summarization = AiTier.local
base_tier AiTaskType.classification = AiTier.local
base_tier AiTaskType.entity_extraction = AiTier.local
base_tier AiTaskType.journal_review = AiTier.local
base_tier AiTaskType.research_synthesis = AiTier.frontier
base_tier AiTaskType.thesis_review = AiTier.frontier_high

-- `_TIER_ORDER` and its `index`.
abbrev pub tier_at : ℕ → AiTier
tier_at n =
    if n == 0 then AiTier.local else if n == 1 then AiTier.frontier else AiTier.frontier_high

abbrev pub index : AiTier → ℕ
index AiTier.frontier = 1
index AiTier.frontier_high = 2
index _ = 0

-- In millionths.
abbrev pub complexity_escalation_threshold : ℕ
complexity_escalation_threshold = 800000

-- `AIRouter._escalation_for`
unfoldable pub escalation_for : AiRequest → AiTier → Option (AiTier × EscalationReason)
escalation_for r tier =
    if is_frontier_high tier
    then none
    else if r.has_contradictions && is_frontier tier
    then some (AiTier.frontier_high, EscalationReason.contradictions)
    else if is_high r.policy.risk && is_local tier
    then some (AiTier.frontier, EscalationReason.high_risk)
    else if leb complexity_escalation_threshold r.estimated_complexity
    then (let next = tier_at (min 2 (index tier + 1)) in
        if same_tier next tier then none else some (next, EscalationReason.complexity))
    else none

-- The local variables of `route`.
pub record Plan : Type 0 where
  pub tier : AiTier
  pub escalated : Bool
  pub escalation_reason : Option EscalationReason
  pub downgraded : Bool
  pub downgrade_reason : Option DowngradeReason

abbrev pub downgrade : AiTier → DowngradeReason → Plan → Plan
downgrade tier why p = record p { tier = tier; downgraded = true; downgrade_reason = some why }

unfoldable pub base_plan : AiRequest → Plan
base_plan r = record {
  tier = base_tier r.task_type;
  escalated = false;
  escalation_reason = none;
  downgraded = false;
  downgrade_reason = none;
}

-- Escalate on the task's characteristics.
unfoldable pub escalate : AiRequest → Plan → Plan
escalate r p =
    if r.policy.allow_escalation
    then elim (escalation_for r p.tier) [
      | none ↦ p
      | some (to, why) ↦ record p { tier = to; escalated = true; escalation_reason = some why }
    ]
    else p

-- One tier down near a budget's ceiling.
unfoldable pub degrade : Bool → Plan → Plan
degrade budget_degraded p =
    if budget_degraded && not (is_local p.tier)
    then (let cheaper = tier_at (index p.tier - 1) in
        if same_tier cheaper p.tier then p else downgrade cheaper DowngradeReason.near_budget p)
    else p

-- The constraints of privacy and of the policy come last.
unfoldable pub constrain : AiRequest → Plan → Plan
constrain r p =
    let q =
      if is_local_only r.policy.privacy && not (is_local p.tier)
      then downgrade AiTier.local DowngradeReason.forbidden_by_privacy p
      else p in
    if not r.policy.allow_frontier && not (is_local q.tier)
    then downgrade AiTier.local DowngradeReason.forbidden_by_policy q
    else q

unfoldable pub plan : AiRequest → Bool → Plan
plan r budget_degraded = constrain r (degrade budget_degraded (escalate r (base_plan r)))

abbrev pub is_allowed : AiRequest → AiModel → Bool
is_allowed r m = any (λ n. m.name == n) r.policy.allowed_models

abbrev pub non_empty : List AiModel → Result ErrorKind (List AiModel)
non_empty [] = err ErrorKind.no_route
non_empty (m ∷ ms) = ok (m ∷ ms)

-- `candidates`, restricted to the allowed models where the policy names some.
unfoldable pub restrict : AiRequest → List AiModel → Result ErrorKind (List AiModel)
restrict r ms = elim r.policy.allowed_models [ [] ↦ ok ms | _ ↦ non_empty (keep (is_allowed r) ms) ]

unfoldable pub find_named : Name → List AiModel → Option AiModel
find_named n [] = none
find_named n (m ∷ ms) = if m.name == n then some m else find_named n ms

abbrev pub requested_from : AiRequest → List AiModel → Option AiModel
requested_from r ms = elim r.policy.requested_model [ none ↦ none | some n ↦ find_named n ms ]

abbrev pub fits : AiRequest → AiModel → Bool
fits r m = leb (context_size r) m.max_context_chars

abbrev pub head_or_error : List AiModel → Result ErrorKind AiModel
head_or_error [] = err ErrorKind.no_route
head_or_error (m ∷ ms) = ok m

-- The models that fit, those that take tools first where the request has a schema.
unfoldable pub prefer_tools : AiRequest → List AiModel → List AiModel
prefer_tools r ms = elim r.schema [
  | none ↦ ms
  | some _ ↦ elim (keep (λ (m : AiModel). m.supports_tools) ms) [ [] ↦ ms | m ∷ rest ↦ m ∷ rest ]
]

unfoldable pub choose : AiRequest → List AiModel → Result ErrorKind AiModel
unfolding find_named prefer_tools
choose r ms = elim (requested_from r ms) [
  | some m ↦ ok m
  | none ↦ head_or_error (prefer_tools r (keep (fits r) ms))
]

-- `AIRouter._select_model`, on the candidates of the routed tier.
unfoldable pub select_model : AiRequest → List AiModel → Result ErrorKind AiModel
unfolding restrict choose
select_model r candidates = do
  some_candidates ← non_empty candidates
  allowed ← restrict r some_candidates
  choose r allowed

abbrev decision : Plan → AiModel → AiRoutingDecision
decision p m = record {
  tier = p.tier;
  provider = m.provider;
  model = m.name;
  escalated = p.escalated;
  escalation_reason = p.escalation_reason;
  downgraded = p.downgraded;
  downgrade_reason = p.downgrade_reason;
}

-- `AIRouter.route`
unfoldable pub route :
    AiRequest → Bool → AiProviderRegistry → AiProviderRegistry × Result ErrorKind AiRoutingDecision
unfolding plan base_plan base_tier escalate escalation_for degrade constrain select_model
route r budget_degraded registry =
    let p = plan r budget_degraded in
    if same_tier p.tier AiTier.none
    then (registry, err ErrorKind.no_route)
    else (let (registry', candidates) = models_for_tier p.tier registry in
        (registry', select_model r candidates >>= λ m. ok (decision p m)))
