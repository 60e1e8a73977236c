-- ===== src/Backtest/StrategyTests.antt =====
-- The strategies on concrete views, in whole numbers.
use trading_brain.Base.{ℕ, ◌+◌, ◌≤◌, none, List, [], ◌∷◌, ℤ}
use trading_brain.Quant.Whole.{whole_numbers}
use trading_brain.Backtest.Schemas.{PriceBar}
use trading_brain.Backtest.MarketView.{MarketView}
use trading_brain.Backtest.Strategies.{ma_cross}
use trading_brain.Backtest.Strategies.Entries.{answers, buys_for, sells_for, ma_cross_takes_turns}

abbrev bar : ℕ → ℕ → PriceBar whole_numbers
bar t price = record {
  ts = t;
  open_price = ℤ.pos price;
  high = ℤ.pos price;
  low = ℤ.pos price;
  close = ℤ.pos price;
  volume = ℤ.pos 10;
}

-- The price rises and falls again.
abbrev views : List (MarketView whole_numbers)
views =
    record { timestamp = 2; history = (1, bar 1 10 ∷ bar 2 20 ∷ []) ∷ [] }
    ∷ record { timestamp = 3; history = (1, bar 1 10 ∷ bar 2 20 ∷ bar 3 6 ∷ []) ∷ [] }
    ∷ []

ma_cross_takes_turns_example :
    (sells_for whole_numbers 1 (answers whole_numbers (ma_cross whole_numbers 1 2 none) views []).1
      ≤ buys_for whole_numbers 1
          (answers whole_numbers (ma_cross whole_numbers 1 2 none) views []).1)
    × (buys_for whole_numbers 1 (answers whole_numbers (ma_cross whole_numbers 1 2 none) views []).1
        ≤ sells_for whole_numbers 1
            (answers whole_numbers (ma_cross whole_numbers 1 2 none) views []).1
          + 1)
ma_cross_takes_turns_example = ma_cross_takes_turns whole_numbers 1 2 none views [] 1
