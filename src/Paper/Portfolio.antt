-- ===== src/Paper/Portfolio.antt =====
-- The paper portfolio of data/storage/portfolio_repository.py: one portfolio, its positions by asset, and
-- its ledger. Numbers are those of the session: that a database column rounds what it stores is left
-- out.
pub mod Ledger
pub mod Long
use trading_brain.Base.{
  ℕ, ◌+◌, ◌-◌, Bool, true, false, not, Option, none, some, List, [], ◌∷◌, ◌++◌, if◌then◌else◌,
  length, keep, Dict, lookup, insert, Result, ok, err, ◌>>=◌,
}
use trading_brain.Quant.Floats.{Floats}
use trading_brain.Quant.Accounting.{
  PortfolioError, PositionState, TransactionEffect, zero_of, no_position, apply_buy, apply_sell,
  market_value, unrealized_pnl, total_equity, exposure, allocation,
}

abbrev pub Asset : Type 0
Asset = ℕ

pub data Side : Type 0 where
  buy sell : Side

-- `PaperPosition`
pub record PaperPosition (num : Floats) : Type 0 where
  pub state : PositionState num
  pub opened_at : Option ℕ
  pub closed_at : Option ℕ

-- `PaperTransaction`
pub record PaperTransaction (num : Floats) : Type 0 where
  pub asset : Asset
  pub side : Side
  pub quantity : num.F
  pub price : num.F
  pub fees : num.F
  pub cash_delta : num.F
  pub realized_pnl : num.F
  pub executed_at : ℕ

-- `PaperPortfolio`
pub record PaperPortfolio (num : Floats) : Type 0 where
  pub initial_cash : num.F
  pub cash_balance : num.F
  pub positions : Dict (PaperPosition num)
  pub transactions : List (PaperTransaction num)

-- An order, as `record_buy` and `record_sell` take it.
pub record Order (num : Floats) : Type 0 where
  pub asset : Asset
  pub side : Side
  pub quantity : num.F
  pub price : num.F
  pub fees : num.F
  pub executed_at : ℕ

module _ (num : Floats) where
  -- `create_portfolio`
  unfoldable pub create_portfolio : num.F → PaperPortfolio num
  create_portfolio initial_cash = record {
    initial_cash = initial_cash;
    cash_balance = initial_cash;
    positions = [];
    transactions = [];
  }

  -- `_state_of(get_position(...))`
  abbrev pub state_of : Asset → PaperPortfolio num → PositionState num
  state_of asset p = elim (lookup asset p.positions) [ none ↦ no_position num | some q ↦ q.state ]

  abbrev opened : Option (PaperPosition num) → ℕ → Option ℕ
  opened none t = some t
  opened (some q) t = elim q.opened_at [ none ↦ some t | some s ↦ some s ]

  -- `_record_transaction`
  abbrev pub transaction : Order num → TransactionEffect num → PaperTransaction num
  transaction o effect = record {
    asset = o.asset;
    side = o.side;
    quantity = o.quantity;
    price = o.price;
    fees = o.fees;
    cash_delta = effect.cash_delta;
    realized_pnl = effect.realized_pnl;
    executed_at = o.executed_at;
  }

  -- The portfolio after a purchase.
  abbrev pub after_buy : Order num → TransactionEffect num → PaperPortfolio num → PaperPortfolio num
  after_buy o effect p = record p {
    positions =
        insert o.asset
          (record {
            state = effect.state;
            opened_at = opened (lookup o.asset p.positions) o.executed_at;
            closed_at = none;
          })
          p.positions;
    cash_balance = num.round6 (num.add p.cash_balance effect.cash_delta);
    transactions = p.transactions ++ transaction o effect ∷ [];
  }

  -- `record_buy`
  unfoldable pub record_buy :
      Order num → PaperPortfolio num → Result PortfolioError (PaperPortfolio num)
  record_buy o p = apply_buy num (state_of o.asset p) o.quantity o.price o.fees >>= λ effect.
      if num.lt (num.add p.cash_balance effect.cash_delta) (zero_of num)
      then err PortfolioError.insufficient_cash
      else ok (after_buy o effect p)

  abbrev pub after_sell :
      Order num
      → TransactionEffect num
      → PaperPosition num
      → PaperPortfolio num
      → PaperPortfolio num
  after_sell o effect q p = record p {
    positions =
        insert o.asset
          (record q {
            state = effect.state;
            closed_at =
                if num.eq effect.state.quantity (zero_of num)
                then some o.executed_at
                else q.closed_at;
          })
          p.positions;
    cash_balance = num.round6 (num.add p.cash_balance effect.cash_delta);
    transactions = p.transactions ++ transaction o effect ∷ [];
  }

  -- `record_sell`
  unfoldable pub record_sell :
      Order num → PaperPortfolio num → Result PortfolioError (PaperPortfolio num)
  record_sell o p = apply_sell num (state_of o.asset p) o.quantity o.price o.fees >>= λ effect.
      elim (lookup o.asset p.positions) [
        | none ↦ err PortfolioError.assertion_failed
        | some q ↦ ok (after_sell o effect q p)
      ]

  unfoldable pub record_order :
      Order num → PaperPortfolio num → Result PortfolioError (PaperPortfolio num)
  unfolding record_buy record_sell
  record_order o p = elim o.side [ Side.buy ↦ record_buy o p | Side.sell ↦ record_sell o p ]

  -- Orders one after another; one that is refused changes nothing.
  abbrev or_unchanged :
      PaperPortfolio num → Result PortfolioError (PaperPortfolio num) → PaperPortfolio num
  or_unchanged p (ok q) = q
  or_unchanged p (err e) = p

  unfoldable pub record_orders : List (Order num) → PaperPortfolio num → PaperPortfolio num
  unfolding record_order
  record_orders [] p = p
  record_orders (o ∷ orders) p = record_orders orders (or_unchanged p (record_order o p))
