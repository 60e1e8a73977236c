-- ===== src/Backtest/Engine/Growth.antt =====
-- The fills only add to the books.
use trading_brain.Base.{
  ℕ, ◌≡◌, refl, ap, sym, ◌∙◌, Option, none, some, List, [], ◌∷◌, ◌++◌, Result, ok, err, ◌>>=◌,
  if_ind, append_assoc, append-nil, Option-cases, lookup, inl, inr,
}
use trading_brain.Quant.Floats.{Floats}
use trading_brain.Quant.Accounting.{
  PortfolioError, TransactionEffect, zero_of, apply_buy, apply_sell,
}
use trading_brain.Backtest.Schemas.{
  BacktestConfig, EquityPoint, Fill, ClosedTrade, PriceBar, StrategySignal, SignalAction,
  commission_on,
}
use trading_brain.Backtest.MarketView.{Series}
use trading_brain.Backtest.Fills.{
  PendingOrder, Book, Sizer, execute, execute_pending, fill_buy, fill_sell, trimmed, bar_at,
  position_of, book_buy, book_sell, to_sell,
}

-- The lists of `c` are those of `b` with more behind.
pub record Extends (num : Floats) (b c : Book num) : Type 0 where
  pub points : List (EquityPoint num)
  pub fills : List (Fill num)
  pub trades : List (ClosedTrade num)
  pub curve_grows : c.equity_curve ≡ b.equity_curve ++ points
  pub fills_grow : c.fills ≡ b.fills ++ fills
  pub trades_grow : c.closed_trades ≡ b.closed_trades ++ trades

pub Extends-refl : (num : Floats) (b : Book num) → Extends num b b
Extends-refl num b = record {
  points = [];
  fills = [];
  trades = [];
  curve_grows = sym (append-nil b.equity_curve);
  fills_grow = sym (append-nil b.fills);
  trades_grow = sym (append-nil b.closed_trades);
}

Extends-same :
    {num : Floats} (b c : Book num)
    → c.equity_curve ≡ b.equity_curve
    → c.fills ≡ b.fills
    → c.closed_trades ≡ b.closed_trades
    → Extends num b c
Extends-same b c points fills trades = record {
  points = [];
  fills = [];
  trades = [];
  curve_grows = points ∙ sym (append-nil b.equity_curve);
  fills_grow = fills ∙ sym (append-nil b.fills);
  trades_grow = trades ∙ sym (append-nil b.closed_trades);
}

grows_trans :
    {A : Type 0} (a p q : List A) {b c : List A} → b ≡ a ++ p → c ≡ b ++ q → c ≡ a ++ (p ++ q)
grows_trans a p q h k = k ∙ ap (λ r. r ++ q) h ∙ append_assoc a p q

pub Extends-trans :
    (num : Floats) (a b c : Book num) → Extends num a b → Extends num b c → Extends num a c
Extends-trans num a b c h k = record {
  points = h.points ++ k.points;
  fills = h.fills ++ k.fills;
  trades = h.trades ++ k.trades;
  curve_grows = grows_trans a.equity_curve h.points k.points h.curve_grows k.curve_grows;
  fills_grow = grows_trans a.fills h.fills k.fills h.fills_grow k.fills_grow;
  trades_grow = grows_trans a.closed_trades h.trades k.trades h.trades_grow k.trades_grow;
}

-- Nothing but what `ok` returns extends the books.
abbrev pub AllExtend : (num : Floats) → Book num → Result PortfolioError (Book num) → Type 0
AllExtend num b (ok c) = Extends num b c
AllExtend num b (err e) = Unit

AllExtend-bind :
    {A : Type 0} (num : Floats) (b : Book num) (m : Result PortfolioError A)
    (f : A → Result PortfolioError (Book num))
    → ((a : A) → AllExtend num b (f a))
    → AllExtend num b (m >>= f)
AllExtend-bind num b (ok a) f h = h a
AllExtend-bind num b (err e) f h = tt

AllExtend-then :
    (num : Floats) (b : Book num) (m : Result PortfolioError (Book num))
    (f : Book num → Result PortfolioError (Book num))
    → AllExtend num b m
    → ((c : Book num) → AllExtend num c (f c))
    → AllExtend num b (m >>= f)
AllExtend-then num b (ok c) f h k = weaken (f c) (k c)
  where
    weaken : (r : Result PortfolioError (Book num)) → AllExtend num c r → AllExtend num b r
    weaken (ok d) e = Extends-trans num b c d h e
    weaken (err e) _ = tt
AllExtend-then num b (err e) f h k = tt

module _ (num : Floats) (config : BacktestConfig num) (size : Sizer num) where
  fill_buy-Extends :
      (signal : StrategySignal num) (fill_price slippage_cost : num.F) (t : ℕ) (b : Book num)
      → AllExtend num b (fill_buy num config size signal fill_price slippage_cost t b)
  unfolding fill_buy
  fill_buy-Extends signal fill_price slippage_cost t b = AllExtend-bind num b _ _ λ wanted.
      let quantity = trimmed num config size wanted fill_price b.cash in
      let commission = commission_on num config (num.mul quantity fill_price) in
      if_ind (AllExtend num b) (num.le wanted (zero_of num)) (λ _. Extends-same b _ refl refl refl)
        (λ _.
          if_ind (AllExtend num b) (num.le quantity (zero_of num)) (λ _. Extends-refl num b)
            (λ _.
              AllExtend-bind num b
                (apply_buy num (position_of num config size signal.ticker b) quantity fill_price
                  commission)
                (λ effect. ok (
                  book_buy num config size signal quantity fill_price slippage_cost commission t b
                    effect))
                (λ effect. record {
                  points = [];
                  fills = _;
                  trades = [];
                  curve_grows = sym (append-nil b.equity_curve);
                  fills_grow = refl;
                  trades_grow = sym (append-nil b.closed_trades);
                })))

  trades-book_sell :
      (signal : StrategySignal num) (quantity fill_price slippage_cost commission : num.F) (t : ℕ)
      (b : Book num) (effect : TransactionEffect num)
      → Extends num b
          (book_sell num config size signal quantity fill_price slippage_cost commission t b effect)
  trades-book_sell signal quantity fill_price slippage_cost commission t b effect =
      elim (Option-cases (lookup signal.ticker b.open_lots)) [
        | inl none_open ↦ rw none_open (record {
          points = [];
          fills = _;
          trades = [];
          curve_grows = sym (append-nil b.equity_curve);
          fills_grow = refl;
          trades_grow = sym (append-nil b.closed_trades);
        })
        | inr (lot, found) ↦ rw found (record {
          points = [];
          fills = _;
          trades = _;
          curve_grows = sym (append-nil b.equity_curve);
          fills_grow = refl;
          trades_grow = refl;
        })
      ]

  fill_sell-Extends :
      (signal : StrategySignal num) (fill_price slippage_cost : num.F) (t : ℕ) (b : Book num)
      → AllExtend num b (fill_sell num config size signal fill_price slippage_cost t b)
  unfolding fill_sell
  fill_sell-Extends signal fill_price slippage_cost t b =
      let s = position_of num config size signal.ticker b in
      let quantity = to_sell num config size signal s in
      let commission = commission_on num config (num.mul quantity fill_price) in
      if_ind (AllExtend num b) (num.le s.quantity (zero_of num))
        (λ _. Extends-same b _ refl refl refl)
        (λ _.
          if_ind (AllExtend num b) (num.le quantity (zero_of num)) (λ _. Extends-refl num b)
            (λ _.
              AllExtend-bind num b (apply_sell num s quantity fill_price commission)
                (λ effect. ok (
                  book_sell num config size signal quantity fill_price slippage_cost commission t b
                    effect))
                (λ effect.
                  trades-book_sell signal quantity fill_price slippage_cost commission t b effect)))

  execute-Extends :
      (t : ℕ) (order : PendingOrder num) (bar : Option (PriceBar num)) (b : Book num)
      → AllExtend num b (execute num config size t order bar b)
  unfolding execute
  execute-Extends t order none b = Extends-same b _ refl refl refl
  execute-Extends t order (some bar) b = by_action order.signal.action refl
    where
      by_action :
          (a : SignalAction)
          → order.signal.action ≡ a
          → AllExtend num b (execute num config size t order (some bar) b)
      by_action SignalAction.buy e = rw (e, execute) (fill_buy-Extends order.signal _ _ t b)
      by_action SignalAction.sell e = rw (e, execute) (fill_sell-Extends order.signal _ _ t b)
      by_action SignalAction.hold e = rw (e, execute) (Extends-refl num b)

  pub execute_pending-Extends :
      (history : Series num) (t : ℕ) (orders : List (PendingOrder num)) (b : Book num)
      → AllExtend num b (execute_pending num config size history t orders b)
  unfolding execute_pending
  execute_pending-Extends history t [] b = Extends-refl num b
  execute_pending-Extends history t (o ∷ orders) b =
      AllExtend-then num b (execute num config size t o (bar_at num history o.signal.ticker t) b)
        (execute_pending num config size history t orders)
        (execute-Extends t o (bar_at num history o.signal.ticker t) b)
        (execute_pending-Extends history t orders)
