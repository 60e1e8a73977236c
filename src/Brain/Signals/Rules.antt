-- ===== src/Brain/Signals/Rules.antt =====
-- The rules of brain/signals/rules.py on a `SignalContext`.
use trading_brain.Base.{
  take, ℕ, ◌+◌, Bool, true, false, not, ◌&&◌, ◌||◌, Option, none, some, List, [], ◌∷◌, ◌++◌, map,
  ltb, if◌then◌else◌, when_some, first, Result, ok, ◌>>=◌,
}
use trading_brain.Quant.Floats.{Floats}
use trading_brain.Quant.Accounting.{zero_of}
use trading_brain.Brain.Signals.{
  SignalCategory, SignalError, EvidenceKind, EvidenceStance, Evidence, GeneratedSignal,
  build_signal,
}
use trading_brain.Brain.Signals.Context.{
  Thesis, Trend, RiskRegime, RegimeObservation, Position, is_broken, is_invalidated, is_sound,
  is_bullish, is_thesis, is_regime, is_some, is_some_true, is_stale, Context, is_held,
  above_long_trend, positive_momentum,
}

-- What parts of a rule find: how many triggers fired, and the evidence.
pub record Findings : Type 0 where
  pub triggers : ℕ
  pub evidence : List Evidence

abbrev pub evidence_of : EvidenceKind → EvidenceStance → Evidence
evidence_of kind stance = record { kind = kind; stance = stance }

abbrev pub nothing_found : Findings
nothing_found = record { triggers = 0; evidence = [] }

abbrev pub trigger_of : EvidenceKind → Findings
trigger_of kind = record { triggers = 1; evidence = evidence_of kind EvidenceStance.supports ∷ [] }

abbrev pub noted : EvidenceKind → EvidenceStance → Findings
noted kind stance = record { triggers = 0; evidence = evidence_of kind stance ∷ [] }

infixl 65 ◌and◌
abbrev pub ◌and◌ : Findings → Findings → Findings
f and g = record { triggers = f.triggers + g.triggers; evidence = f.evidence ++ g.evidence }

-- A rule's answer: a signal, none, or the error that a constructor raises.
abbrev pub Answer : Type 0
Answer = Result SignalError (Option GeneratedSignal)

abbrev pub signal : SignalCategory → List Evidence → Answer
signal category evidence = build_signal category evidence >>= λ s. ok (some s)

abbrev pub signal_if_any : SignalCategory → Findings → Answer
signal_if_any category f = if ltb 0 f.triggers then signal category f.evidence else ok none

abbrev evidence_if : Bool → EvidenceKind → EvidenceStance → List Evidence
evidence_if true kind stance = evidence_of kind stance ∷ []
evidence_if false kind stance = []

abbrev remaining_thesis : Option Thesis → Findings
remaining_thesis none = nothing_found
remaining_thesis (some t) = noted EvidenceKind.thesis EvidenceStance.contradicts

abbrev exit_thesis : Option Thesis → Findings
exit_thesis none = nothing_found
exit_thesis (some t) =
    if is_invalidated t.current_assessment then trigger_of EvidenceKind.thesis else nothing_found

abbrev exit_trend : Option Bool → Findings
exit_trend none = noted EvidenceKind.quant EvidenceStance.unknown
exit_trend (some false) = trigger_of EvidenceKind.quant
exit_trend (some true) = nothing_found

abbrev reduce_risk : RiskRegime → Findings
reduce_risk RiskRegime.risk_off = trigger_of EvidenceKind.regime
reduce_risk RiskRegime.other = nothing_found

abbrev reduce_trend : Trend → Findings
reduce_trend Trend.bearish = trigger_of EvidenceKind.regime
reduce_trend Trend.bullish = nothing_found
reduce_trend Trend.other = nothing_found

abbrev reduce_regime : Option RegimeObservation → Findings
reduce_regime none = noted EvidenceKind.regime EvidenceStance.unknown
reduce_regime (some r) = reduce_risk r.risk_regime and reduce_trend r.regime

module _ (num : Floats) where
  abbrev hundredths : ℕ → num.F
  hundredths n = num.div (num.whole n) (num.whole 100)

  abbrev position_evidence : Context num → List Evidence
  position_evidence c =
      if is_held num c then evidence_of EvidenceKind.position EvidenceStance.supports ∷ [] else []

  unfoldable pub thesis_review_rule : Context num → Answer
  unfolding is_stale
  thesis_review_rule c = when_some c.thesis (ok none) λ t.
      if is_broken t.current_assessment || is_stale c.now t
      then signal SignalCategory.thesis_review
          (evidence_of EvidenceKind.thesis EvidenceStance.supports ∷ position_evidence c)
      else ok none

  abbrev exit_price : Option num.F → num.F → Findings
  exit_price none average_cost = noted EvidenceKind.position EvidenceStance.unknown
  exit_price (some close) average_cost =
      if num.lt (zero_of num) average_cost
      then if num.le (num.sub (num.div close average_cost) (num.whole 1)) (num.neg (hundredths 20))
        then trigger_of EvidenceKind.position
        else noted EvidenceKind.position EvidenceStance.contradicts
      else noted EvidenceKind.position EvidenceStance.unknown

  abbrev pub exit_findings : Context num → Position num → Findings
  exit_findings c p =
      exit_thesis c.thesis
      and exit_price c.quant.last_close p.average_cost
      and exit_trend (above_long_trend num c.quant)

  unfoldable pub exit_review_rule : Context num → Answer
  exit_review_rule c = when_some c.position (ok none) λ p.
      if num.lt (zero_of num) p.quantity
      then signal_if_any SignalCategory.exit_review (exit_findings c p)
      else ok none

  abbrev reduce_momentum : Option num.F → Findings
  reduce_momentum none = noted EvidenceKind.quant EvidenceStance.unknown
  reduce_momentum (some momentum) =
      if num.lt momentum (zero_of num) then trigger_of EvidenceKind.quant else nothing_found

  abbrev pub reduce_findings : Context num → Findings
  reduce_findings c =
      reduce_regime c.regime and reduce_momentum c.quant.momentum_20d and remaining_thesis c.thesis

  unfoldable pub reduce_rule : Context num → Answer
  reduce_rule c =
      if not (is_held num c) || is_thesis is_broken c.thesis
      then ok none
      else signal_if_any SignalCategory.reduce (reduce_findings c)

  -- The evidence on the valuation; none if the price is too high for its earnings.
  abbrev pub valuation : Option num.F → Option Evidence
  valuation none = some (evidence_of EvidenceKind.valuation EvidenceStance.unknown)
  valuation (some pe) =
      if num.lt (num.whole 35) pe
      then none
      else some (evidence_of EvidenceKind.valuation EvidenceStance.supports)

  abbrev overbought : Option num.F → List Evidence
  overbought none = []
  overbought (some rsi) =
      if num.lt (num.whole 75) rsi
      then evidence_of EvidenceKind.quant EvidenceStance.contradicts ∷ []
      else []

  unfoldable pub accumulate_rule : Context num → Answer
  accumulate_rule c =
      if is_thesis is_sound c.thesis
        && is_regime is_bullish c.regime
        && is_some_true (positive_momentum num c.quant)
      then (when_some (valuation c.pe_ratio) (ok none) λ e. signal SignalCategory.accumulate (
          evidence_of EvidenceKind.thesis EvidenceStance.supports
          ∷ evidence_of EvidenceKind.regime EvidenceStance.supports
          ∷ evidence_of EvidenceKind.quant EvidenceStance.supports
          ∷ e
          ∷ overbought c.quant.rsi_14))
      else ok none

  -- At most four of the reasons of the entry.
  unfoldable pub research_rule : Context num → Answer
  research_rule c = when_some (first c.queue_entries) (ok none) λ top.
      if num.lt top.score (hundredths 60)
      then ok none
      else signal SignalCategory.research (
          evidence_of EvidenceKind.research EvidenceStance.supports
          ∷ map (λ _. evidence_of EvidenceKind.research EvidenceStance.supports)
              (take top.reasons 4))

  unfoldable pub watch_rule : Context num → Answer
  watch_rule c =
      if c.is_watched || is_held num c
      then signal SignalCategory.watch (
          evidence_if c.is_watched EvidenceKind.research EvidenceStance.supports
          ++ evidence_if (is_held num c) EvidenceKind.position EvidenceStance.supports
          ++ evidence_if (not c.has_research) EvidenceKind.research EvidenceStance.unknown
          ++ evidence_if (is_some c.regime) EvidenceKind.regime EvidenceStance.supports
          ++ evidence_if (not (is_some c.quant.last_close)) EvidenceKind.quant
              EvidenceStance.unknown)
      else ok none

  -- `RULES`
  abbrev pub later_rules : List (Context num → Answer)
  later_rules = exit_review_rule ∷ reduce_rule ∷ accumulate_rule ∷ research_rule ∷ watch_rule ∷ []

  abbrev pub rules : List (Context num → Answer)
  rules = thesis_review_rule ∷ later_rules
