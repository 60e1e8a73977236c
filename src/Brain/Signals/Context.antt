-- ===== src/Brain/Signals/Context.antt =====
-- The `SignalContext` of brain/signals/context.py that the rules read: what it holds of the thesis, the
-- regime, the indicators, the queue and the position. A review that lies in the future counts as one of
-- this moment.
use trading_brain.Base.{ℕ, ◌-◌, ◌/◌, Bool, true, false, Option, none, some, List, ltb}
use trading_brain.Quant.Floats.{Floats}
use trading_brain.Quant.Accounting.{zero_of}

-- `Thesis.current_assessment`, where any other text counts as unassessed.
pub data Assessment : Type 0 where
  intact strengthened weakened invalidated unassessed : Assessment

pub record Thesis : Type 0 where
  pub current_assessment : Assessment
  pub last_reviewed_at : Option ℕ

-- The trend and the risk of a `MarketRegimeObservation`, with those that the rules do not name as one.
pub data Trend : Type 0 where
  bullish bearish other : Trend

pub data RiskRegime : Type 0 where
  risk_off other : RiskRegime

pub record RegimeObservation : Type 0 where
  pub regime : Trend
  pub risk_regime : RiskRegime

module _ (num : Floats) where
  pub record QuantView : Type 0 where
    pub last_close : Option num.F
    pub sma_200 : Option num.F
    pub rsi_14 : Option num.F
    pub momentum_20d : Option num.F

  pub record QueueEntry : Type 0 where
    pub score : num.F
    pub reasons : List ℕ

  pub record Position : Type 0 where
    pub quantity : num.F
    pub average_cost : num.F

  pub record SignalContext : Type 0 where
    pub quant : QuantView
    pub regime : Option RegimeObservation
    pub thesis : Option Thesis
    pub has_research : Bool
    pub queue_entries : List QueueEntry
    pub position : Option Position
    pub is_watched : Bool
    pub pe_ratio : Option num.F
    pub now : ℕ

abbrev pub is_broken : Assessment → Bool
is_broken Assessment.invalidated = true
is_broken Assessment.weakened = true
is_broken _ = false

abbrev pub is_invalidated : Assessment → Bool
is_invalidated Assessment.invalidated = true
is_invalidated _ = false

abbrev pub is_sound : Assessment → Bool
is_sound Assessment.intact = true
is_sound Assessment.strengthened = true
is_sound _ = false

abbrev pub is_bullish : Trend → Bool
is_bullish Trend.bullish = true
is_bullish _ = false

abbrev pub is_thesis : (Assessment → Bool) → Option Thesis → Bool
is_thesis p none = false
is_thesis p (some t) = p t.current_assessment

abbrev pub is_regime : (Trend → Bool) → Option RegimeObservation → Bool
is_regime p none = false
is_regime p (some r) = p r.regime

abbrev pub is_some {ℓ} : {A : Type ℓ} → Option A → Bool
is_some none = false
is_some (some a) = true

abbrev pub is_some_true : Option Bool → Bool
is_some_true none = false
is_some_true (some b) = b

-- `if days <= THESIS_STALE_DAYS: return None`
unfoldable pub is_stale : ℕ → Thesis → Bool
is_stale now t = elim t.last_reviewed_at [
  | none ↦ true
  | some reviewed ↦ ltb 45 ((now - reviewed) / 86_400_000_000)
]

module _ (num : Floats) where
  abbrev pub Context : Type 0
  Context = SignalContext num

  -- `is_held`
  abbrev pub is_held : Context → Bool
  is_held c = elim c.position [ none ↦ false | some p ↦ num.lt (zero_of num) p.quantity ]

  -- `above_long_trend` and `positive_momentum`
  abbrev pub above_long_trend : QuantView num → Option Bool
  above_long_trend q = elim q.last_close [
    | none ↦ none
    | some close ↦ elim q.sma_200 [ none ↦ none | some sma ↦ some (num.lt sma close) ]
  ]

  abbrev pub positive_momentum : QuantView num → Option Bool
  positive_momentum q = elim q.momentum_20d [
    | none ↦ none
    | some momentum ↦ some (num.lt (zero_of num) momentum)
  ]
