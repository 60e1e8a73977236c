-- ===== src/Backtest/Engine.antt =====
-- `BacktestEngine.run` of backtesting/engine.py. The strategy and the sizer are parameters: a strategy
-- is what it remembers and what it answers to a view. The metrics of the result are left out.
pub mod Timeline
pub mod Cuts
pub mod Lookahead
pub mod Growth
pub mod Extension
use trading_brain.Base.{
  ℕ, Bool, true, false, not, ◌&&◌, Option, none, some, List, [], ◌∷◌, ◌++◌, map, leb, ltb, ◌==◌,
  if◌then◌else◌, keep, sort, Dict, last, first, Result, ok, err, ◌>>=◌,
}
use trading_brain.Quant.Floats.{Floats}
use trading_brain.Quant.Accounting.{PortfolioError, PositionState, zero_of}
use trading_brain.Backtest.Schemas.{
  Ticker, PriceBar, SignalAction, StrategySignal, BacktestConfig, EquityPoint, UnfilledReason,
  Unfilled,
}
use trading_brain.Backtest.MarketView.{Series, MarketView, is_filled, at, current_price}
use trading_brain.Backtest.Fills.{PendingOrder, OpenLot, Book, Sizer, execute_pending}

-- `Strategy`: its attributes, `on_start` and `on_bar`.
pub record Strategy (num : Floats) : Type 1 where
  pub Memory : Type 0
  pub on_start : Memory → Memory
  pub on_bar : MarketView num → Memory → Memory × List (StrategySignal num)

-- A set of times, in order: `t` is added unless it is there.
unfoldable pub add_stamp : ℕ → List ℕ → List ℕ
add_stamp t [] = t ∷ []
add_stamp t (s ∷ ss) =
    let rest = add_stamp t ss in if ltb t s then t ∷ s ∷ ss else if t == s then s ∷ ss else s ∷ rest

-- `sorted` of a set of times.
unfoldable pub sorted_set : List ℕ → List ℕ
sorted_set [] = []
sorted_set (t ∷ ts) = add_stamp t (sorted_set ts)

abbrev pub not_before : Option ℕ → ℕ → Bool
not_before none t = true
not_before (some start) t = leb start t

abbrev pub not_after : Option ℕ → ℕ → Bool
not_after none t = true
not_after (some end) t = leb t end

abbrev pub is_hold : SignalAction → Bool
is_hold SignalAction.hold = true
is_hold _ = false

module _ (num : Floats) where
  abbrev pub sort_bars : List (PriceBar num) → List (PriceBar num)
  sort_bars = sort (λ (b : PriceBar num). b.ts)

  abbrev pub sort_item : Ticker × List (PriceBar num) → Ticker × List (PriceBar num)
  sort_item (k, bars) = (k, sort_bars bars)

  abbrev pub ticker_key : Ticker × List (PriceBar num) → ℕ
  ticker_key p = p.0

  -- The series in the order of their tickers, each in the order of its times, without the empty ones.
  unfoldable pub history_of : Series num → Series num
  history_of bars_by_ticker = map sort_item (keep (is_filled num) (sort ticker_key bars_by_ticker))

  abbrev pub stamps : Series num → List ℕ
  stamps [] = []
  stamps ((k, bars) ∷ rest) = map (λ (b : PriceBar num). b.ts) bars ++ stamps rest

  -- `_build_timeline`
  unfoldable pub build_timeline : Series num → Option ℕ → Option ℕ → List ℕ
  unfolding sorted_set add_stamp
  build_timeline history start end =
      sorted_set (keep (not_after end) (keep (not_before start) (stamps history)))

  -- The value of the open positions: one without a price is held at its cost.
  unfoldable pub positions_value :
      MarketView num → List (Ticker × PositionState num) → num.F → num.F
  unfolding current_price
  positions_value view [] value = value
  positions_value view ((ticker, s) ∷ rest) value =
      if num.le s.quantity (zero_of num)
      then positions_value view rest value
      else positions_value view rest (
          num.add value (
            num.mul s.quantity
              (elim (current_price num ticker view) [ none ↦ s.average_cost | some p ↦ p ])))

  -- `_equity`
  unfoldable pub equity_of : num.F → Dict (PositionState num) → MarketView num → num.F
  equity_of cash positions view = num.add cash (
      positions_value view (sort (λ (p : Ticker × PositionState num). p.0) positions) (zero_of num))

  unfoldable pub queued : ℕ → List (StrategySignal num) → List (PendingOrder num)
  queued t [] = []
  queued t (s ∷ signals) =
      let rest = queued t signals in
      if is_hold s.action then rest else record { signal = s; queued_at = t } ∷ rest

  -- Orders that are still queued after the last bar.
  unfoldable pub never_filled : List (PendingOrder num) → List Unfilled
  never_filled [] = []
  never_filled (o ∷ orders) =
      record {
        ticker = o.signal.ticker;
        action = o.signal.action;
        queued_at = o.queued_at;
        reason = UnfilledReason.no_subsequent_bar;
      }
      ∷ never_filled orders

  -- `BacktestResult`, but for the metrics.
  pub record BacktestResult : Type 0 where
    pub start : Option ℕ
    pub end : Option ℕ
    pub book : Book num

  module _ (config : BacktestConfig num) (size : Sizer num) (strategy : Strategy num) where
    -- What the loop carries: the books and the strategy's memory.
    abbrev pub Running : Type 0
    Running = Book num × strategy.Memory

    -- Steps 2 to 5 of one timestamp.
    unfoldable pub observe : Series num → ℕ → Running → Running
    unfolding equity_of queued
    observe history t (b, memory) =
        let view = at num history t in
        let equity = equity_of b.cash b.positions view in
        let (memory', signals) = strategy.on_bar view memory in
        (
          record b {
            pending = queued t signals;
            equity_curve =
                b.equity_curve
                ++ record {
                  timestamp = t;
                  cash = num.round6 b.cash;
                  positions_value = num.round6 (num.sub equity b.cash);
                  equity = num.round6 equity;
                }
                  ∷ [];
          },
          memory',
        )

    -- One timestamp: first the fills of what was decided before.
    unfoldable pub step : Series num → ℕ → Running → Result PortfolioError Running
    unfolding observe
    step history t (b, memory) = execute_pending num config size history t b.pending b >>= λ filled.
        ok (observe history t (filled, memory))

    unfoldable pub loop : Series num → List ℕ → Running → Result PortfolioError Running
    loop history [] r = ok r
    loop history (t ∷ timeline) r = step history t r >>= λ r1. loop history timeline r1

    abbrev pub initial : strategy.Memory → Running
    initial memory = (
      record {
        cash = config.initial_cash;
        positions = [];
        open_lots = [];
        pending = [];
        equity_curve = [];
        fills = [];
        closed_trades = [];
        unfilled = [];
      },
      strategy.on_start memory,
    )

    abbrev pub finish : List ℕ → Running → BacktestResult
    finish timeline (b, memory) = record {
      start = first timeline;
      end = last timeline;
      book = record b { unfilled = b.unfilled ++ never_filled b.pending };
    }

    -- `BacktestEngine.run`
    unfoldable pub run :
        strategy.Memory → Series num → Option ℕ → Option ℕ → Result PortfolioError BacktestResult
    unfolding history_of build_timeline loop never_filled
    run memory bars_by_ticker start end =
        let history = history_of bars_by_ticker in
        let timeline = build_timeline history start end in
        loop history timeline (initial memory) >>= λ r. ok (finish timeline r)
