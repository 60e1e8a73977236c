-- ===== src/Backtest/Tests.antt =====
-- The backtester on concrete inputs, in whole numbers.
use trading_brain.Base.{
  ℕ, ◌≤◌, ◌≡◌, refl, arith, Bool, true, false, none, some, List, [], ◌∷◌, ℤ, All, ok, if◌then◌else◌,
}
use trading_brain.Quant.Whole.{whole_numbers}
use trading_brain.Backtest.Schemas.{PriceBar, SignalAction, StrategySignal, BacktestConfig}
use trading_brain.Backtest.MarketView.{Series, MarketView, is_current}
use trading_brain.Quant.Accounting
use trading_brain.Quant.Accounting.{PortfolioError}
use trading_brain.Backtest.Schemas
use trading_brain.Backtest.MarketView
use trading_brain.Backtest.Fills
use trading_brain.Backtest.Fills.{Sizer}
use trading_brain.Backtest.Engine
use trading_brain.Backtest.Engine.{Strategy, BacktestResult, run}
use trading_brain.Backtest.Engine.Cuts.{cut}
use trading_brain.Backtest.Engine.Lookahead.{run-cut}
use trading_brain.Backtest.Engine.Growth.{Extends}
use trading_brain.Backtest.Engine.Extension.{run-Extends}
use trading_brain.Backtest.WalkForward.{Window, split}
use trading_brain.Backtest.WalkForward.Order.{IsOrdered, IsDisjoint, split-IsSplit}

abbrev bar : ℕ → ℕ → PriceBar whole_numbers
bar t price = record {
  ts = t;
  open_price = ℤ.pos price;
  high = ℤ.pos price;
  low = ℤ.pos price;
  close = ℤ.pos price;
  volume = ℤ.pos 10;
}

abbrev series : Series whole_numbers
series = (1, bar 10 5 ∷ bar 20 6 ∷ bar 30 9 ∷ []) ∷ (2, bar 20 7 ∷ []) ∷ []

abbrev config : BacktestConfig whole_numbers
config = record { initial_cash = ℤ.pos 1000; commission_bps = ℤ.pos 100; slippage_bps = ℤ.pos 0 }

abbrev size : Sizer whole_numbers
size signal price equity cash = ok (ℤ.pos 3)

-- Buys ticker 1 on its first bar.
abbrev strategy : Strategy whole_numbers
strategy = record {
  Memory = Bool;
  on_start = λ _. false;
  on_bar = λ view bought. (
    true,
    if bought
        then []
        else record { ticker = 1; action = SignalAction.buy; strength = ℤ.pos 1 } ∷ [],
  );
}

run-cut_example :
    run whole_numbers config size strategy false (cut whole_numbers 20 series) none (some 20)
    ≡ run whole_numbers config size strategy false series none (some 20)
run-cut_example =
    run-cut whole_numbers config size strategy 20 series ((omega arith, tt), (tt, tt)) none false

abbrev long : BacktestResult whole_numbers
long = record {
  start = some 10;
  end = some 30;
  book = record {
    cash = ℤ.pos 982;
    positions =
        (1, record { quantity = ℤ.pos 3; average_cost = ℤ.pos 6; realized_pnl = ℤ.pos 0 }) ∷ [];
    open_lots = (1, record { quantity = ℤ.pos 3; entry_price = ℤ.pos 6; opened_at = 20 }) ∷ [];
    pending = [];
    equity_curve =
        record { timestamp = 10; cash = ℤ.pos 1000; positions_value = ℤ.pos 0; equity = ℤ.pos 1000 }
        ∷ record {
          timestamp = 20;
          cash = ℤ.pos 982;
          positions_value = ℤ.pos 18;
          equity = ℤ.pos 1000;
        }
        ∷ record {
          timestamp = 30;
          cash = ℤ.pos 982;
          positions_value = ℤ.pos 27;
          equity = ℤ.pos 1009;
        }
        ∷ [];
    fills =
        record {
          ticker = 1;
          action = SignalAction.buy;
          quantity = ℤ.pos 3;
          price = ℤ.pos 6;
          commission = ℤ.pos 0;
          slippage = ℤ.pos 0;
          timestamp = 20;
          realized_pnl = ℤ.pos 0;
        }
        ∷ [];
    closed_trades = [];
    unfilled = [];
  };
}

-- What was decided at 10 is bought at the open of 20.
run-Extends_example :
    (short : BacktestResult whole_numbers) × (run whole_numbers config size strategy false series
        none
        (some 20)
      ≡ ok short)
    × Extends whole_numbers short.book long.book
unfolding run Engine.history_of Engine.build_timeline Engine.sorted_set Engine.add_stamp Engine.loop
    Engine.step Engine.observe Engine.equity_of Engine.queued Engine.never_filled
    Engine.positions_value MarketView.at MarketView.current_price MarketView.current_bar
    Fills.execute_pending Fills.execute Fills.fill_buy Fills.trimmed Schemas.commission_on
    Schemas.slippage_price Accounting.apply_buy
run-Extends_example =
    run-Extends whole_numbers config size strategy false series none 20 30 long (omega arith) refl

abbrev timeline : List ℕ
timeline = 10 ∷ 20 ∷ 30 ∷ 40 ∷ 50 ∷ []

split-IsSplit_example :
    (ws : List Window) × (split (record { train_size = 2; test_size = 1; step = 1 }) timeline
      ≡ ok ws)
    × All IsOrdered ws
    × (1 ≤ 1 → IsDisjoint ws)
split-IsSplit_example =
    split-IsSplit 1 0 1 timeline
      (
        (omega arith, (omega arith, (omega arith, (omega arith, tt)))),
        (
          (omega arith, (omega arith, (omega arith, tt))),
          ((omega arith, (omega arith, tt)), ((omega arith, tt), (tt, tt))),
        ),
      )
      (omega arith)
