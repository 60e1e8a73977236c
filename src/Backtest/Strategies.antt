-- ===== src/Backtest/Strategies.antt =====
-- The strategies of backtesting/strategy.py, and the moving average of quant/indicators/moving_average.py.
-- A set of tickers is a list of them.
pub mod Entries
use trading_brain.Base.{
  get_elem?, ℕ, zero, suc, ◌+◌, ◌-◌, ◌*◌, Bool, true, false, not, ◌&&◌, ◌||◌, Option, none, some,
  List, [], ◌∷◌, ◌++◌, ltb, leb, ◌==◌, if◌then◌else◌, when_some, any, keep, length, last, Result,
  ok, err,
}
use trading_brain.Quant.Floats.{Floats}
use trading_brain.Backtest.Schemas.{Ticker, SignalAction, StrategySignal}
use trading_brain.Backtest.MarketView.{MarketView, tickers, is_current, closes}
use trading_brain.Backtest.Engine.{Strategy}

-- `ticker in tickers`
abbrev pub is_in : Ticker → List Ticker → Bool
is_in ticker = any (λ (t : Ticker). ticker == t)

-- `set.discard`
abbrev pub discard : Ticker → List Ticker → List Ticker
discard ticker = keep (λ (t : Ticker). not (ticker == t))

module _ (num : Floats) where
  -- The sum of the window after the value at `i`: what leaves the window is taken off.
  abbrev pub window_sum_at : List num.F → ℕ → ℕ → num.F → num.F → num.F
  window_sum_at values period i v sum =
      if leb period i
      then when_some (get_elem? values (i - period)) (num.add sum v) (num.sub (num.add sum v))
      else num.add sum v

  -- The loop of `sma` from the value at `i` on.
  unfoldable pub sma_from : List num.F → ℕ → ℕ → num.F → List num.F → List (Option num.F)
  sma_from values period i sum [] = []
  sma_from values period i sum (v ∷ rest) =
      let sum' = window_sum_at values period i v sum in
      (if leb period (i + 1) then some (num.div sum' (num.whole period)) else none)
      ∷ sma_from values period (i + 1) sum' rest

  -- `sma`, for a period of at least 1.
  unfoldable pub sma : List num.F → ℕ → List (Option num.F)
  unfolding sma_from
  sma values period = sma_from values period 0 (num.whole 0) values

  abbrev pub signal_of : Ticker → SignalAction → StrategySignal num
  signal_of ticker action = record { ticker = ticker; action = action; strength = num.whole 1 }

  -- `self.tickers if self.tickers is not None else view.tickers`
  abbrev pub universe : Option (List Ticker) → MarketView num → List Ticker
  universe chosen view = when_some chosen (tickers num view) (λ ts. ts)

  -- The loop of `BuyAndHoldStrategy.on_bar`.
  unfoldable pub enter_all :
      MarketView num → List Ticker → List Ticker → List Ticker × List (StrategySignal num)
  enter_all view [] bought = (bought, [])
  enter_all view (ticker ∷ rest) bought =
      let skipping = enter_all view rest bought in
      let entering = enter_all view rest (ticker ∷ bought) in
      if is_in ticker bought || not (is_current num ticker view)
      then skipping
      else (entering.0, signal_of ticker SignalAction.buy ∷ entering.1)

  -- `BuyAndHoldStrategy`
  abbrev pub buy_and_hold : Option (List Ticker) → Strategy num
  buy_and_hold chosen = record {
    Memory = List Ticker;
    on_start = λ _. [];
    on_bar = λ view bought. enter_all view (universe chosen view) bought;
  }

  -- The two averages at the end of the closes, if there are enough of them.
  abbrev pub averages : ℕ → ℕ → List num.F → Option (num.F × num.F)
  averages fast slow values =
      if ltb (length values) slow then none else elim (last (sma values fast)) [
        | none ↦ none
        | some none ↦ none
        | some (some a) ↦ elim (last (sma values slow)) [
          | none ↦ none
          | some none ↦ none
          | some (some b) ↦ some (a, b)
        ]
      ]

  -- What one ticker's averages ask for, given whether it is held long.
  abbrev pub crossing : Option (num.F × num.F) → Bool → Option SignalAction
  crossing none is_long = none
  crossing (some (a, b)) is_long =
      if num.lt b a && not is_long
      then some SignalAction.buy
      else if num.le a b && is_long
      then some SignalAction.sell
      else none

  -- What the strategy holds long after an action.
  abbrev pub after_action : Ticker → SignalAction → List Ticker → List Ticker
  after_action ticker SignalAction.buy long = ticker ∷ long
  after_action ticker SignalAction.sell long = discard ticker long
  after_action ticker SignalAction.hold long = long

  abbrev pub decision : ℕ → ℕ → MarketView num → Ticker → List Ticker → Option SignalAction
  decision fast slow view ticker long =
      if is_current num ticker view
      then crossing (averages fast slow (closes num ticker none view)) (is_in ticker long)
      else none

  -- The loop of `MovingAverageCrossStrategy.on_bar`.
  unfoldable pub cross_all :
      ℕ → ℕ → MarketView num → List Ticker → List Ticker → List Ticker × List (StrategySignal num)
  unfolding sma
  cross_all fast slow view [] long = (long, [])
  cross_all fast slow view (ticker ∷ rest) long =
      let staying = cross_all fast slow view rest long in
      when_some (decision fast slow view ticker long) staying λ action.
        let acting = cross_all fast slow view rest (after_action ticker action long) in
        (acting.0, signal_of ticker action ∷ acting.1)

  -- `MovingAverageCrossStrategy`, and its `__init__`. A fast window of 0, at which `sma` raises on the
  -- first bar, is left out.
  abbrev pub ma_cross : ℕ → ℕ → Option (List Ticker) → Strategy num
  ma_cross fast slow chosen = record {
    Memory = List Ticker;
    on_start = λ _. [];
    on_bar = λ view long. cross_all fast slow view (universe chosen view) long;
  }

  unfoldable pub moving_average_cross : ℕ → ℕ → Option (List Ticker) → Option (Strategy num)
  moving_average_cross fast slow chosen =
      if leb slow fast then none else some (ma_cross fast slow chosen)
