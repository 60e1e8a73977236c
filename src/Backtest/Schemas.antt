-- ===== src/Backtest/Schemas.antt =====
-- The value types of backtesting/schemas.py and `PriceBar` of data/ingestion/schemas.py. Tickers are
-- numbers in their order, times are numbers; the texts of reasons are left out.
use trading_brain.Base.{ℕ, ℤ}
use trading_brain.Quant.Floats.{Floats, max_of}

abbrev pub Ticker : Type 0
Ticker = ℕ

pub record PriceBar (num : Floats) : Type 0 where
  pub ts : ℕ
  pub open_price : num.F
  pub high : num.F
  pub low : num.F
  pub close : num.F
  pub volume : ℤ

pub data SignalAction : Type 0 where
  buy sell hold : SignalAction

pub record StrategySignal (num : Floats) : Type 0 where
  pub ticker : Ticker
  pub action : SignalAction
  pub strength : num.F

pub record Fill (num : Floats) : Type 0 where
  pub ticker : Ticker
  pub action : SignalAction
  pub quantity : num.F
  pub price : num.F
  pub commission : num.F
  pub slippage : num.F
  pub timestamp : ℕ
  pub realized_pnl : num.F

pub record ClosedTrade (num : Floats) : Type 0 where
  pub ticker : Ticker
  pub quantity : num.F
  pub entry_price : num.F
  pub exit_price : num.F
  pub opened_at : ℕ
  pub closed_at : ℕ
  pub pnl : num.F
  pub return_pct : num.F

pub record BacktestConfig (num : Floats) : Type 0 where
  pub initial_cash : num.F
  pub commission_bps : num.F
  pub slippage_bps : num.F

pub record EquityPoint (num : Floats) : Type 0 where
  pub timestamp : ℕ
  pub cash : num.F
  pub positions_value : num.F
  pub equity : num.F

-- The reason that an order did not fill.
pub data UnfilledReason : Type 0 where
  no_subsequent_bar did_not_trade sizer_returned_zero no_position_to_sell : UnfilledReason

pub record Unfilled : Type 0 where
  pub ticker : Ticker
  pub action : SignalAction
  pub queued_at : ℕ
  pub reason : UnfilledReason

module _ (num : Floats) where
  -- `BacktestConfig.commission_on`
  unfoldable pub commission_on : BacktestConfig num → num.F → num.F
  commission_on c notional = num.div (num.mul (num.abs notional) c.commission_bps) (num.whole 10000)

  -- `BacktestConfig.slippage_price`
  unfoldable pub slippage_price : BacktestConfig num → num.F → SignalAction → num.F
  slippage_price c price action =
      let adjustment = num.div (num.mul price c.slippage_bps) (num.whole 10000) in
      elim action [
        | SignalAction.buy ↦ num.add price adjustment
        | SignalAction.sell ↦ max_of num (num.sub price adjustment) num.tiny
        | SignalAction.hold ↦ price
      ]
