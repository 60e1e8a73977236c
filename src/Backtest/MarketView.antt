-- ===== src/Backtest/MarketView.antt =====
-- `MarketView` of backtesting/market_view.py: the history up to one moment.
use trading_brain.Base.{
  ℕ, Bool, true, false, Option, none, some, List, [], ◌∷◌, map, leb, ◌==◌, if◌then◌else◌, length,
  keep, last, Dict, lookup, sort, ◌-◌,
}
use trading_brain.Quant.Floats.{Floats}
use trading_brain.Backtest.Schemas.{Ticker, PriceBar}

module _ (num : Floats) where
  abbrev pub Series : Type 0
  Series = Dict (List (PriceBar num))

  pub record MarketView : Type 0 where
    pub timestamp : ℕ
    pub history : Series

  -- `[bar for bar in bars if bar.ts <= timestamp]`
  abbrev pub bars_to : ℕ → List (PriceBar num) → List (PriceBar num)
  bars_to t = keep (λ (b : PriceBar num). leb b.ts t)

  abbrev pub is_filled : Ticker × List (PriceBar num) → Bool
  is_filled (k, []) = false
  is_filled (k, b ∷ bs) = true

  abbrev pub cut_item : ℕ → Ticker × List (PriceBar num) → Ticker × List (PriceBar num)
  cut_item t (k, bars) = (k, bars_to t bars)

  -- `MarketView.at`
  unfoldable pub at : Series → ℕ → MarketView
  at bars_by_ticker t = record {
    timestamp = t;
    history = keep is_filled (map (cut_item t) bars_by_ticker);
  }

  -- `history.get(ticker, [])`
  abbrev pub bars_of : Ticker → Series → List (PriceBar num)
  bars_of ticker s = elim (lookup ticker s) [ none ↦ [] | some bs ↦ bs ]

  -- `MarketView.tickers`
  unfoldable pub tickers : MarketView → List Ticker
  tickers v = sort (λ (t : Ticker). t) (map (λ (p : Ticker × List (PriceBar num)). p.0) v.history)

  abbrev drop : ℕ → List (PriceBar num) → List (PriceBar num)
  drop n [] = []
  drop n (b ∷ bs) = if n == 0 then b ∷ bs else drop (n - 1) bs

  -- `MarketView.bars`: `history[-lookback:]` is everything if `lookback` is 0.
  unfoldable pub bars : Ticker → Option ℕ → MarketView → List (PriceBar num)
  bars ticker lookback v =
      let h = bars_of ticker v.history in
      elim lookback [ none ↦ h | some n ↦ if n == 0 then h else drop (length h - n) h ]

  -- `MarketView.closes`
  unfoldable pub closes : Ticker → Option ℕ → MarketView → List num.F
  closes ticker lookback v = map (λ (b : PriceBar num). b.close) (bars ticker lookback v)

  -- `MarketView.current_bar`
  unfoldable pub current_bar : Ticker → MarketView → Option (PriceBar num)
  current_bar ticker v = last (bars_of ticker v.history)

  -- `MarketView.current_price`
  unfoldable pub current_price : Ticker → MarketView → Option num.F
  current_price ticker v = elim (current_bar ticker v) [ none ↦ none | some b ↦ some b.close ]

  -- `MarketView.is_current`
  unfoldable pub is_current : Ticker → MarketView → Bool
  is_current ticker v = elim (current_bar ticker v) [ none ↦ false | some b ↦ b.ts == v.timestamp ]

  -- `MarketView.has_data`, `MarketView.bar_count`
  unfoldable pub has_data : Ticker → MarketView → Bool
  has_data ticker v = elim (lookup ticker v.history) [ none ↦ false | some _ ↦ true ]

  unfoldable pub bar_count : Ticker → MarketView → ℕ
  bar_count ticker v = length (bars_of ticker v.history)
