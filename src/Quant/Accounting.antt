-- ===== src/Quant/Accounting.antt =====
-- Average-cost accounting (quant/performance/portfolio.py, quant/performance/risk.py).
use trading_brain.Base.{
  false, ◌≡◌, Result, ok, err, ◌>>=◌, ◌>>◌, raise_if, if◌then◌else◌, arith, Bool-cases, inl, inr,
}
use trading_brain.Quant.Floats.{Floats, IsRounding}

pub data PortfolioError : Type 0 where
  quantity_not_positive price_not_positive insufficient_position insufficient_cash : PortfolioError
  duplicate_name division_by_zero assertion_failed : PortfolioError

pub record PositionState (num : Floats) : Type 0 where
  pub quantity : num.F
  pub average_cost : num.F
  pub realized_pnl : num.F

pub record TransactionEffect (num : Floats) : Type 0 where
  pub state : PositionState num
  pub cash_delta : num.F
  pub realized_pnl : num.F

module _ (num : Floats) where
  abbrev pub zero_of : num.F
  zero_of = num.whole 0

  -- `PositionState()`
  abbrev pub no_position : PositionState num
  no_position = record { quantity = zero_of; average_cost = zero_of; realized_pnl = zero_of }

  abbrev pub bought : PositionState num → num.F → num.F → num.F → TransactionEffect num
  bought s quantity price fees =
      let gross_cost = num.add (num.mul quantity price) fees in
      let prior_basis = num.mul s.quantity s.average_cost in
      let new_quantity = num.add s.quantity quantity in
      record {
        state = record {
          quantity = num.round6 new_quantity;
          average_cost = num.round6 (num.div (num.add prior_basis gross_cost) new_quantity);
          realized_pnl = s.realized_pnl;
        };
        cash_delta = num.round6 (num.neg gross_cost);
        realized_pnl = zero_of;
      }

  -- `apply_buy`
  unfoldable pub apply_buy :
      PositionState num
      → (quantity price fees : num.F) → Result PortfolioError (TransactionEffect num)
  apply_buy s quantity price fees =
      raise_if (num.le quantity zero_of) PortfolioError.quantity_not_positive
      >> raise_if (num.le price zero_of) PortfolioError.price_not_positive
      >>= λ _. ok (bought s quantity price fees)

  abbrev pub sold : PositionState num → num.F → num.F → num.F → TransactionEffect num
  sold s quantity price fees =
      let proceeds = num.sub (num.mul quantity price) fees in
      let realized = num.sub (num.mul quantity (num.sub price s.average_cost)) fees in
      let remaining = num.sub s.quantity quantity in
      record {
        state = record {
          quantity = num.round6 remaining;
          average_cost = if num.lt zero_of remaining then num.round6 s.average_cost else zero_of;
          realized_pnl = num.round6 (num.add s.realized_pnl realized);
        };
        cash_delta = num.round6 proceeds;
        realized_pnl = num.round6 realized;
      }

  -- `apply_sell`
  unfoldable pub apply_sell :
      PositionState num
      → (quantity price fees : num.F) → Result PortfolioError (TransactionEffect num)
  apply_sell s quantity price fees =
      raise_if (num.le quantity zero_of) PortfolioError.quantity_not_positive
      >> raise_if (num.le price zero_of) PortfolioError.price_not_positive
      >> raise_if (num.lt s.quantity quantity) PortfolioError.insufficient_position
      >>= λ _. ok (sold s quantity price fees)

  -- `market_value`, `unrealized_pnl`, `total_equity`
  unfoldable pub market_value : PositionState num → num.F → num.F
  market_value s price = num.round6 (num.mul s.quantity price)

  unfoldable pub unrealized_pnl : PositionState num → num.F → num.F
  unrealized_pnl s price =
      if num.eq s.quantity zero_of
      then zero_of
      else num.round6 (num.mul s.quantity (num.sub price s.average_cost))

  unfoldable pub total_equity : num.F → num.F → num.F
  total_equity cash positions_market_value = num.round6 (num.add cash positions_market_value)

  -- `exposure` and `allocation`
  unfoldable pub exposure : num.F → num.F → num.F
  exposure value equity = if num.eq equity zero_of then zero_of else num.div value equity

  unfoldable pub allocation : num.F → num.F → num.F
  allocation value equity = if num.eq equity zero_of then zero_of else num.div value equity

  -- `risk_amount`, `position_size`
  abbrev pub risk_amount : num.F → num.F → num.F
  risk_amount equity pct = num.mul equity pct

  unfoldable pub position_size : (equity pct entry stop : num.F) → Result PortfolioError num.F
  position_size equity pct entry stop =
      if num.eq entry stop
      then err PortfolioError.division_by_zero
      else ok (num.div (risk_amount equity pct) (num.abs (num.sub entry stop)))

  -- No sale opens a short: a sale that goes through leaves no quantity below 0, and one of more than is
  -- held is refused with no effect.
  pub apply_sell-lt_zero :
      (rounding : IsRounding num) (s : PositionState num) (quantity price fees : num.F)
      {e : TransactionEffect num}
      → apply_sell s quantity price fees ≡ ok e
      → (num.lt s.quantity quantity ≡ false) × (num.lt e.state.quantity zero_of ≡ false)
  unfolding apply_sell
  apply_sell-lt_zero rounding s quantity price fees {e} h =
      elim (Bool-cases (num.lt s.quantity quantity)) [
        | inl over ↦ ground (arith, over, h)
        | inr held ↦ (
          held,
          ground (
            arith,
            h,
            held,
            rounding.round-lt_zero (num.sub s.quantity quantity)
                (rounding.sub-lt_zero s.quantity quantity held),
          ),
        )
      ]
