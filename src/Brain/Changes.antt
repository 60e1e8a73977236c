-- ===== src/Brain/Changes.antt =====
-- `ChangeDetector` and `detect_regime_change` of brain/research/change_detection.py, on the rows that its
-- queries select for one asset. The details of a change are left out; a review or a document that lies
-- in the future counts as one of this moment. That Python raises on a division by a close of 0, which
-- the validation of bars lets nobody store, is left out.
use trading_brain.Base.{
  ℕ, ◌+◌, ◌-◌, ◌*◌, ◌/◌, Bool, not, ◌&&◌, ◌||◌, Option, none, some, List, [], ◌∷◌, ◌++◌, map, ltb,
  leb, ◌==◌, if◌then◌else◌, when_some, keep, length, first, last,
}
use trading_brain.Quant.Floats.{Floats, min_of}
use trading_brain.Quant.Accounting.{zero_of}
use trading_brain.Data.Prices.{Price, get_close_series}
use trading_brain.Brain.Signals.Context.{Assessment, Thesis}

pub data ChangeType : Type 0 where
  price_shock large_move earnings_release regime_change thesis_violation stale_research : ChangeType

module _ (num : Floats) where
  -- `DetectedChange`
  pub record DetectedChange : Type 0 where
    pub asset_id : ℕ
    pub change_type : ChangeType
    pub magnitude : num.F
    pub detected_at : ℕ

  pub record ChangeDetectionConfig : Type 0 where
    pub price_shock_pct : num.F
    pub large_move_pct : num.F
    pub large_move_window : ℕ
    pub earnings_lookback_days : ℕ
    pub stale_research_days : ℕ
    pub thesis_stale_days : ℕ

-- `MarketEvent`
pub record MarketEvent : Type 0 where
  pub related_asset_id : ℕ
  pub is_earnings : Bool
  pub occurred_at : ℕ

-- The three readings of a `MarketRegimeObservation`.
pub record RegimeReading : Type 0 where
  pub regime : ℕ
  pub volatility_regime : ℕ
  pub risk_regime : ℕ

-- What is stored about an asset: the table of prices, the market's events, the active thesis, and when the
-- latest research on it was written.
pub record Stored (num : Floats) : Type 0 where
  pub prices : List (Price num)
  pub events : List MarketEvent
  pub thesis : Option Thesis
  pub latest_document : Option ℕ

abbrev pub microseconds : ℕ → ℕ
microseconds days = days * 86_400_000_000

-- The whole days since a time, or one more than the limit if there is no such time.
abbrev pub days_since : ℕ → Option ℕ → ℕ → ℕ
days_since now none limit = limit + 1
days_since now (some t) limit = (now - t) / 86_400_000_000

abbrev pub second_last_of {ℓ} : {A : Type ℓ} → List A → Option A
second_last_of [] = none
second_last_of (x ∷ []) = none
second_last_of (x ∷ y ∷ []) = some x
second_last_of (x ∷ y ∷ z ∷ xs) = second_last_of (y ∷ z ∷ xs)

module _ (num : Floats) where
  -- `ChangeDetectionConfig()`
  abbrev pub default_config : ChangeDetectionConfig num
  default_config = record {
    price_shock_pct = num.div (num.whole 5) (num.whole 100);
    large_move_pct = num.div (num.whole 15) (num.whole 100);
    large_move_window = 20;
    earnings_lookback_days = 7;
    stale_research_days = 30;
    thesis_stale_days = 45;
  }

  -- `_scaled`
  unfoldable pub scaled : num.F → num.F → num.F
  scaled observed threshold =
      if num.le threshold (zero_of num)
      then num.whole 1
      else min_of num (num.whole 1) (num.div (num.abs observed) (num.mul (num.whole 2) threshold))

  abbrev pub change_of : ℕ → ChangeType → num.F → ℕ → DetectedChange num
  change_of asset_id change_type magnitude now = record {
    asset_id = asset_id;
    change_type = change_type;
    magnitude = magnitude;
    detected_at = now;
  }

  -- The return from one close to another.
  abbrev pub return_of : num.F → num.F → num.F
  return_of from until = num.sub (num.div until from) (num.whole 1)

  -- A breach of a threshold by a return, if both closes are there.
  unfoldable pub breach :
      ℕ → ℕ → ChangeType → num.F → Option num.F → Option num.F → List (DetectedChange num)
  unfolding scaled
  breach asset_id now change_type threshold none until = []
  breach asset_id now change_type threshold (some from) none = []
  breach asset_id now change_type threshold (some from) (some until) =
      if num.le threshold (num.abs (return_of from until))
      then change_of asset_id change_type (scaled (return_of from until) threshold) now ∷ []
      else []

  -- `_price_changes`; the interval of a daily bar is 0.
  unfoldable pub price_changes :
      ChangeDetectionConfig num → ℕ → ℕ → List (Price num) → List (DetectedChange num)
  unfolding breach get_close_series
  price_changes cfg asset_id now prices =
      let window = cfg.large_move_window + 1 in
      let closes = get_close_series num asset_id 0 (some window) prices in
      if ltb (length closes) 2
      then []
      else breach asset_id now ChangeType.price_shock cfg.price_shock_pct (second_last_of closes)
          (last closes)
        ++ (if leb window (length closes)
            then breach asset_id now ChangeType.large_move cfg.large_move_pct (first closes)
                (last closes)
            else [])

  -- The condition of the query of `_earnings_changes`.
  abbrev pub is_recent_earnings : ChangeDetectionConfig num → ℕ → ℕ → MarketEvent → Bool
  is_recent_earnings cfg asset_id now e =
      e.related_asset_id == asset_id
      && e.is_earnings
      && leb now (e.occurred_at + microseconds cfg.earnings_lookback_days)

  unfoldable pub earnings_changes :
      ChangeDetectionConfig num → ℕ → ℕ → List MarketEvent → List (DetectedChange num)
  earnings_changes cfg asset_id now events =
      map (λ _. change_of asset_id ChangeType.earnings_release (num.whole 1) now)
        (keep (is_recent_earnings cfg asset_id now) events)

  -- The magnitude of an assessment, where it is above 0.
  abbrev pub assessed : Assessment → Option num.F
  assessed Assessment.invalidated = some (num.whole 1)
  assessed Assessment.weakened = some (num.div (num.whole 7) (num.whole 10))
  assessed _ = none

  -- `_thesis_changes`
  unfoldable pub thesis_changes :
      ChangeDetectionConfig num → ℕ → ℕ → Option Thesis → List (DetectedChange num)
  unfolding scaled
  thesis_changes cfg asset_id now thesis = when_some thesis [] λ t.
      let days = days_since now t.last_reviewed_at cfg.thesis_stale_days in
      elim (assessed t.current_assessment) [
        | some magnitude ↦ change_of asset_id ChangeType.thesis_violation magnitude now ∷ []
        | none ↦
            if ltb cfg.thesis_stale_days days
            then change_of asset_id ChangeType.thesis_violation
                (scaled (num.whole days) (num.whole cfg.thesis_stale_days)) now
              ∷ []
            else []
      ]

  -- `_stale_research`
  unfoldable pub stale_changes :
      ChangeDetectionConfig num → ℕ → ℕ → Option ℕ → List (DetectedChange num)
  unfolding scaled
  stale_changes cfg asset_id now latest =
      let days = days_since now latest cfg.stale_research_days in
      if ltb cfg.stale_research_days days
      then change_of asset_id ChangeType.stale_research
          (scaled (num.whole days) (num.whole cfg.stale_research_days)) now
        ∷ []
      else []

  -- `detect_for_asset`
  unfoldable pub detect_for_asset :
      ChangeDetectionConfig num → ℕ → ℕ → Stored num → List (DetectedChange num)
  unfolding price_changes earnings_changes thesis_changes stale_changes
  detect_for_asset cfg asset_id now stored =
      price_changes cfg asset_id now stored.prices
      ++ (earnings_changes cfg asset_id now stored.events
          ++ (thesis_changes cfg asset_id now stored.thesis
              ++ stale_changes cfg asset_id now stored.latest_document))

  -- `detect_regime_change`, on the observations, the latest first.
  unfoldable pub detect_regime_change : ℕ → List RegimeReading → Option (DetectedChange num)
  detect_regime_change now [] = none
  detect_regime_change now (latest ∷ []) = none
  detect_regime_change now (latest ∷ previous ∷ rest) =
      let trend_changed = not (latest.regime == previous.regime) in
      let other_changed =
        not (latest.volatility_regime == previous.volatility_regime)
        || not (latest.risk_regime == previous.risk_regime) in
      if trend_changed || other_changed
      then some (
          change_of 0 ChangeType.regime_change
            (if trend_changed then num.whole 1 else num.div (num.whole 5) (num.whole 10)) now)
      else none
