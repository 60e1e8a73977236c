-- ===== src/Paper/Tests.antt =====
-- The paper portfolio on concrete inputs, in whole numbers.
use trading_brain.Base.{ℕ, none, some, List, [], ◌∷◌, ℤ}
use trading_brain.Quant.Whole.{whole_numbers, whole_numbers-IsRounding}
use trading_brain.Paper.Portfolio.{Side, Order, PaperPortfolio, create_portfolio, record_orders}
use trading_brain.Paper.Portfolio.Ledger.{
  IsReproducible, create_portfolio-IsReproducible, record_orders-IsReproducible,
}
use trading_brain.Paper.Portfolio.Long.{IsLong, IsCovered, record_orders-IsLong}

abbrev order : Side → ℕ → ℕ → Order whole_numbers
order side quantity price = record {
  asset = 1;
  side = side;
  quantity = ℤ.pos quantity;
  price = ℤ.pos price;
  fees = ℤ.pos 1;
  executed_at = 5;
}

-- The second sale asks for more than is held.
abbrev orders : List (Order whole_numbers)
orders = order Side.buy 10 7 ∷ order Side.sell 4 9 ∷ order Side.sell 50 9 ∷ []

abbrev portfolio : PaperPortfolio whole_numbers
portfolio = record {
  initial_cash = ℤ.pos 1000;
  cash_balance = ℤ.pos 1000;
  positions = [];
  transactions = [];
}

record_orders-IsReproducible_example :
    IsReproducible whole_numbers
      (record_orders whole_numbers orders (create_portfolio whole_numbers (ℤ.pos 1000)))
record_orders-IsReproducible_example =
    record_orders-IsReproducible whole_numbers orders (create_portfolio whole_numbers (ℤ.pos 1000))
      (create_portfolio-IsReproducible whole_numbers (ℤ.pos 1000))

record_orders-IsLong_example :
    IsLong whole_numbers (record_orders whole_numbers orders portfolio)
    × IsCovered whole_numbers orders portfolio
record_orders-IsLong_example =
    record_orders-IsLong whole_numbers whole_numbers-IsRounding orders portfolio tt

abbrev pub bought : PaperPortfolio whole_numbers
bought = record {
  initial_cash = ℤ.pos 1000;
  cash_balance = ℤ.pos 929;
  positions =
      (
        1,
        record {
          state = record { quantity = ℤ.pos 10; average_cost = ℤ.pos 7; realized_pnl = ℤ.pos 0 };
          opened_at = some 5;
          closed_at = none;
        },
      )
      ∷ [];
  transactions =
      record {
        asset = 1;
        side = Side.buy;
        quantity = ℤ.pos 10;
        price = ℤ.pos 7;
        fees = ℤ.pos 1;
        cash_delta = ℤ.negsuc 70;
        realized_pnl = ℤ.pos 0;
        executed_at = 5;
      }
      ∷ [];
}
