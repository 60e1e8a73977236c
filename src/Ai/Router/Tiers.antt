-- ===== src/Ai/Router/Tiers.antt =====
-- The tier that a request ends at, and that every change of tier is recorded with its reason.
use trading_brain.Base.{◌+◌, ◌≤◌, ◌≡◌, ◌≢◌, ◌⊎◌, refl, Bool, true, false, Option, none, some, arith}
use trading_brain.Ai.Kinds.{AiTier, AiTaskType, is_local_only}
use trading_brain.Ai.Schemas.{AiRequest}
use trading_brain.Ai.Router.{
  Plan, base_tier, escalation_for, index, base_plan, escalate, degrade, constrain, plan,
}

constrain-private :
    (r : AiRequest) (p : Plan)
    → p.tier ≢ AiTier.none
    → (is_local_only r.policy.privacy ≡ true) ⊎ (r.policy.allow_frontier ≡ false)
    → (constrain r p).tier ≡ AiTier.local
unfolding constrain
constrain-private r p ne h = ground arith

base_tier-ne-none : (t : AiTaskType) → base_tier t ≢ AiTier.none
unfolding base_tier
base_tier-ne-none t = ground arith

escalate-ne-none :
    (r : AiRequest) (p : Plan) → p.tier ≢ AiTier.none → (escalate r p).tier ≢ AiTier.none
unfolding escalate escalation_for
escalate-ne-none r p h = ground arith

degrade-ne-none : (b : Bool) (p : Plan) → p.tier ≢ AiTier.none → (degrade b p).tier ≢ AiTier.none
unfolding degrade
degrade-ne-none b p h = ground arith

constrain-ne-none :
    (r : AiRequest) (p : Plan) → p.tier ≢ AiTier.none → (constrain r p).tier ≢ AiTier.none
unfolding constrain
constrain-ne-none r p h = ground arith

before_constrain :
    (r : AiRequest) (b : Bool) → (degrade b (escalate r (base_plan r))).tier ≢ AiTier.none
unfolding base_plan
before_constrain r b =
    degrade-ne-none b (escalate r (base_plan r))
      (escalate-ne-none r (base_plan r) (base_tier-ne-none r.task_type))

-- No request is routed to the tier that permits no model.
pub plan-ne-none : (r : AiRequest) (b : Bool) → (plan r b).tier ≢ AiTier.none
unfolding plan
plan-ne-none r b = constrain-ne-none r (degrade b (escalate r (base_plan r))) (before_constrain r b)

-- A request that is local_only, or that forbids frontier providers, is routed to the local tier,
-- whatever its task, its complexity and the budget.
pub plan-private :
    (r : AiRequest) (budget_degraded : Bool)
    → (is_local_only r.policy.privacy ≡ true) ⊎ (r.policy.allow_frontier ≡ false)
    → (plan r budget_degraded).tier ≡ AiTier.local
unfolding plan
plan-private r b h =
    constrain-private r (degrade b (escalate r (base_plan r))) (before_constrain r b) h

abbrev is_set {ℓ} : {A : Type ℓ} → Option A → Bool
is_set none = false
is_set (some a) = true

-- Each flag is set exactly if its reason is.
pub record IsRecorded (p : Plan) : Type 0 where
  pub escalated : p.escalated ≡ is_set p.escalation_reason
  pub downgraded : p.downgraded ≡ is_set p.downgrade_reason

escalate-IsRecorded : (r : AiRequest) (p : Plan) → IsRecorded p → IsRecorded (escalate r p)
unfolding escalate escalation_for
escalate-IsRecorded r p h = ground arith

degrade-IsRecorded : (b : Bool) (p : Plan) → IsRecorded p → IsRecorded (degrade b p)
unfolding degrade
degrade-IsRecorded b p h = ground arith

constrain-IsRecorded : (r : AiRequest) (p : Plan) → IsRecorded p → IsRecorded (constrain r p)
unfolding constrain
constrain-IsRecorded r p h = ground arith

-- Every escalation and every downgrade carries its reason, and no other plan does.
plan-IsRecorded : (r : AiRequest) (b : Bool) → IsRecorded (plan r b)
unfolding plan base_plan
plan-IsRecorded r b = constrain-IsRecorded r (degrade b (escalate r (base_plan r))) (
    degrade-IsRecorded b (escalate r (base_plan r))
      (escalate-IsRecorded r (base_plan r) (record { escalated = refl; downgraded = refl })))

index-escalate : (r : AiRequest) (p : Plan) → index (escalate r p).tier ≤ index p.tier + 1
unfolding escalate escalation_for
index-escalate r p = ground arith

index-degrade : (b : Bool) (p : Plan) → index (degrade b p).tier ≤ index p.tier
unfolding degrade
index-degrade b p = ground arith

index-constrain : (r : AiRequest) (p : Plan) → index (constrain r p).tier ≤ index p.tier
unfolding constrain
index-constrain r p = ground arith

index-degrade_mono : (p : Plan) → index (degrade true p).tier ≤ index (degrade false p).tier
unfolding degrade
index-degrade_mono p = ground arith

constrain_mono :
    (r : AiRequest) (p q : Plan)
    → index p.tier ≤ index q.tier
    → index (constrain r p).tier ≤ index (constrain r q).tier
unfolding constrain
constrain_mono r p q h = ground arith

-- No request ends more than one tier above its task's base tier. Budget pressure never raises the
-- tier.
plan_bounds :
    (r : AiRequest) (b : Bool)
    → (index (plan r b).tier ≤ index (base_tier r.task_type) + 1)
      × (index (plan r true).tier ≤ index (plan r false).tier)
unfolding plan base_plan
plan_bounds r b =
    let p : Plan = escalate r (base_plan r) in
    (
      omega (
        arith,
        index-escalate r (base_plan r),
        index-degrade b p,
        index-constrain r (degrade b p),
      ),
      constrain_mono r (degrade true p) (degrade false p) (index-degrade_mono p),
    )
