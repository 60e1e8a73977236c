-- ===== src/Backtest/Fills.antt =====
-- The fills of `BacktestEngine`: `_execute_pending`, `_fill_buy` and `_fill_sell` of
-- backtesting/engine.py. An accounting error is raised through the whole run.
use trading_brain.Base.{
  ℕ, Option, none, some, List, [], ◌∷◌, ◌++◌, ◌==◌, if◌then◌else◌, Dict, lookup, insert, erase,
  Result, ok, ◌>>=◌,
}
use trading_brain.Quant.Floats.{Floats, max_of, min_of}
use trading_brain.Quant.Accounting.{
  PortfolioError, PositionState, TransactionEffect, zero_of, no_position, apply_buy, apply_sell,
}
use trading_brain.Backtest.Schemas.{
  Ticker, PriceBar, SignalAction, StrategySignal, Fill, ClosedTrade, BacktestConfig, EquityPoint,
  UnfilledReason, Unfilled, commission_on, slippage_price,
}
use trading_brain.Backtest.MarketView.{Series, bars_of}

-- `_PendingOrder` and `_OpenLot`
pub record PendingOrder (num : Floats) : Type 0 where
  pub signal : StrategySignal num
  pub queued_at : ℕ

pub record OpenLot (num : Floats) : Type 0 where
  pub quantity : num.F
  pub entry_price : num.F
  pub opened_at : ℕ

-- The local variables of `run`, and the lists of the result.
pub record Book (num : Floats) : Type 0 where
  pub cash : num.F
  pub positions : Dict (PositionState num)
  pub open_lots : Dict (OpenLot num)
  pub pending : List (PendingOrder num)
  pub equity_curve : List (EquityPoint num)
  pub fills : List (Fill num)
  pub closed_trades : List (ClosedTrade num)
  pub unfilled : List Unfilled

-- `PositionSizer.size` of a signal, a price, the equity and the cash.
abbrev pub Sizer : Floats → Type 0
Sizer num = StrategySignal num → num.F → num.F → num.F → Result PortfolioError num.F

module _ (num : Floats) where
  -- The first bar of the ticker at that very time.
  abbrev pub find_at : ℕ → List (PriceBar num) → Option (PriceBar num)
  find_at t [] = none
  find_at t (b ∷ bs) = if b.ts == t then some b else find_at t bs

  -- `_bar_at`
  abbrev pub bar_at : Series num → Ticker → ℕ → Option (PriceBar num)
  bar_at history ticker t = find_at t (bars_of num ticker history)

module _ (num : Floats) (config : BacktestConfig num) (size : Sizer num) where
  abbrev pub position_of : Ticker → Book num → PositionState num
  position_of ticker b = elim (lookup ticker b.positions) [ none ↦ no_position num | some s ↦ s ]

  abbrev not_filled : StrategySignal num → SignalAction → ℕ → UnfilledReason → Book num → Book num
  not_filled signal action t reason b = record b {
    unfilled =
        b.unfilled
        ++ record { ticker = signal.ticker; action = action; queued_at = t; reason = reason } ∷ [];
  }

  -- The equity that the sizer is told of: the cash and the position in this ticker.
  abbrev pub equity_estimate : Ticker → num.F → Book num → num.F
  equity_estimate ticker fill_price b = num.add b.cash (elim (lookup ticker b.positions) [
    | none ↦ zero_of num
    | some s ↦ num.add (zero_of num) (num.mul s.quantity fill_price)
  ])

  abbrev opened_at : Ticker → ℕ → Book num → ℕ
  opened_at ticker t b = elim (lookup ticker b.open_lots) [ none ↦ t | some lot ↦ lot.opened_at ]

  -- What is bought of `quantity`: no more than the cash supports.
  unfoldable pub trimmed : num.F → num.F → num.F → num.F
  unfolding commission_on
  trimmed quantity fill_price cash =
      if num.lt cash (
        num.add (num.mul quantity fill_price)
          (commission_on num config (num.mul quantity fill_price)))
      then max_of num (zero_of num) (
          num.div cash (
            num.mul fill_price
              (num.add (num.whole 1) (num.div config.commission_bps (num.whole 10000)))))
      else quantity

  -- The books after a purchase of `quantity`.
  abbrev pub book_buy :
      StrategySignal num
      → (quantity fill_price slippage_cost commission : num.F) → ℕ
      → Book num
      → TransactionEffect num
      → Book num
  book_buy signal quantity fill_price slippage_cost commission t b effect = record b {
    cash = num.add b.cash effect.cash_delta;
    positions = insert signal.ticker effect.state b.positions;
    open_lots =
        insert signal.ticker
          (record {
            quantity = effect.state.quantity;
            entry_price = effect.state.average_cost;
            opened_at = opened_at signal.ticker t b;
          })
          b.open_lots;
    fills =
        b.fills
        ++ record {
          ticker = signal.ticker;
          action = SignalAction.buy;
          quantity = num.round6 quantity;
          price = num.round6 fill_price;
          commission = num.round6 commission;
          slippage = num.round6 (num.mul slippage_cost quantity);
          timestamp = t;
          realized_pnl = zero_of num;
        }
          ∷ [];
  }

  -- `_fill_buy`
  unfoldable pub fill_buy :
      StrategySignal num
      → (fill_price slippage_cost : num.F) → ℕ
      → Book num
      → Result PortfolioError (Book num)
  unfolding trimmed commission_on
  fill_buy signal fill_price slippage_cost t b =
      size signal fill_price (max_of num (equity_estimate signal.ticker fill_price b) b.cash) b.cash
      >>= λ wanted.
          let quantity = trimmed wanted fill_price b.cash in
          let commission = commission_on num config (num.mul quantity fill_price) in
          if num.le wanted (zero_of num)
          then ok (not_filled signal SignalAction.buy t UnfilledReason.sizer_returned_zero b)
          else if num.le quantity (zero_of num)
          then ok b
          else apply_buy num (position_of signal.ticker b) quantity fill_price commission
            >>= λ effect.
                ok (book_buy signal quantity fill_price slippage_cost commission t b effect)

  -- The round trip that a sale closes, if a lot is open.
  abbrev closed :
      StrategySignal num
      → (quantity fill_price : num.F) → ℕ
      → TransactionEffect num
      → OpenLot num
      → ClosedTrade num
  closed signal quantity fill_price t effect lot =
      let gross = num.mul quantity (num.sub fill_price lot.entry_price) in
      record {
        ticker = signal.ticker;
        quantity = num.round6 quantity;
        entry_price = num.round6 lot.entry_price;
        exit_price = num.round6 fill_price;
        opened_at = lot.opened_at;
        closed_at = t;
        pnl = num.round6 effect.realized_pnl;
        return_pct =
            if num.lt (zero_of num) lot.entry_price
            then num.round6 (num.div gross (num.mul lot.entry_price quantity))
            else zero_of num;
      }

  abbrev lots_after :
      StrategySignal num
      → TransactionEffect num
      → OpenLot num
      → Dict (OpenLot num)
      → Dict (OpenLot num)
  lots_after signal effect lot lots =
      if num.le effect.state.quantity (zero_of num)
      then erase signal.ticker lots
      else insert signal.ticker (record lot { quantity = effect.state.quantity }) lots

  -- The books after a sale of `quantity`.
  abbrev pub book_sell :
      StrategySignal num
      → (quantity fill_price slippage_cost commission : num.F) → ℕ
      → Book num
      → TransactionEffect num
      → Book num
  book_sell signal quantity fill_price slippage_cost commission t b effect =
      let lot = lookup signal.ticker b.open_lots in
      record b {
        cash = num.add b.cash effect.cash_delta;
        positions = insert signal.ticker effect.state b.positions;
        closed_trades = elim lot [
          | none ↦ b.closed_trades
          | some l ↦ b.closed_trades ++ closed signal quantity fill_price t effect l ∷ []
        ];
        open_lots = elim lot [
          | none ↦ b.open_lots
          | some l ↦ lots_after signal effect l b.open_lots
        ];
        fills =
            b.fills
            ++ record {
              ticker = signal.ticker;
              action = SignalAction.sell;
              quantity = num.round6 quantity;
              price = num.round6 fill_price;
              commission = num.round6 commission;
              slippage = num.round6 (num.mul slippage_cost quantity);
              timestamp = t;
              realized_pnl = num.round6 effect.realized_pnl;
            }
              ∷ [];
      }

  -- The part of the position that a signal sells.
  abbrev pub to_sell : StrategySignal num → PositionState num → num.F
  to_sell signal s =
      min_of num s.quantity
        (num.mul s.quantity (max_of num (zero_of num) (min_of num (num.whole 1) signal.strength)))

  -- `_fill_sell`
  unfoldable pub fill_sell :
      StrategySignal num
      → (fill_price slippage_cost : num.F) → ℕ
      → Book num
      → Result PortfolioError (Book num)
  unfolding commission_on
  fill_sell signal fill_price slippage_cost t b =
      let s = position_of signal.ticker b in
      let quantity = to_sell signal s in
      let commission = commission_on num config (num.mul quantity fill_price) in
      if num.le s.quantity (zero_of num)
      then ok (not_filled signal SignalAction.sell t UnfilledReason.no_position_to_sell b)
      else if num.le quantity (zero_of num)
      then ok b
      else apply_sell num s quantity fill_price commission >>= λ effect.
          ok (book_sell signal quantity fill_price slippage_cost commission t b effect)

  -- One order of `_execute_pending`, at the bar of its ticker if there is one.
  unfoldable pub execute :
      ℕ → PendingOrder num → Option (PriceBar num) → Book num → Result PortfolioError (Book num)
  unfolding slippage_price
  execute t order none b = ok (record b {
    unfilled =
        b.unfilled
        ++ record {
          ticker = order.signal.ticker;
          action = order.signal.action;
          queued_at = order.queued_at;
          reason = UnfilledReason.did_not_trade;
        }
          ∷ [];
  })
  execute t order (some bar) b =
      let fill_price = slippage_price num config bar.open_price order.signal.action in
      let slippage_cost = num.abs (num.sub fill_price bar.open_price) in
      elim order.signal.action [
        | SignalAction.buy ↦ fill_buy order.signal fill_price slippage_cost t b
        | SignalAction.sell ↦ fill_sell order.signal fill_price slippage_cost t b
        | SignalAction.hold ↦ ok b
      ]

  -- `_execute_pending`
  unfoldable pub execute_pending :
      Series num → ℕ → List (PendingOrder num) → Book num → Result PortfolioError (Book num)
  execute_pending history t [] b = ok b
  execute_pending history t (order ∷ orders) b =
      execute t order (bar_at num history order.signal.ticker t) b >>= λ b1.
      execute_pending history t orders b1
