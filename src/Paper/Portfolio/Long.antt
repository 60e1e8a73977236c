-- ===== src/Paper/Portfolio/Long.antt =====
-- No position is short, and no purchase overdraws the cash.
use trading_brain.Base.{
  ◌≡◌, refl, sym, subst, arith, Bool, true, false, Option, none, some, List, [], ◌∷◌, ◌==◌, Dict,
  lookup, insert, Result, ok, err, inl, inr, All, if_ind,
}
use trading_brain.Quant.Floats.{Floats, IsRounding}
use trading_brain.Quant.Accounting.{
  PortfolioError, PositionState, TransactionEffect, zero_of, no_position, apply_buy, apply_sell,
  apply_sell-lt_zero,
}
use trading_brain.Paper.Portfolio.{
  Asset, Side, PaperPosition, PaperPortfolio, Order, state_of, record_buy, record_sell,
  record_order, record_orders, or_unchanged,
}
use trading_brain.Paper.Portfolio.Ledger.{record_buy-ok, record_sell-ok, Side-cases}

module _ (num : Floats) where
  abbrev IsNotBelow : num.F → Type 0
  IsNotBelow x = num.lt x (zero_of num) ≡ false

  abbrev AllLong : Dict (PaperPosition num) → Type 0
  AllLong = All (λ (q : Asset × PaperPosition num). IsNotBelow q.1.state.quantity)

  -- No position is short.
  abbrev pub IsLong : PaperPortfolio num → Type 0
  IsLong p = AllLong p.positions

  insert-AllLong :
      (a : Asset) (r : PaperPosition num) (d : Dict (PaperPosition num))
      → IsNotBelow r.state.quantity
      → AllLong d
      → AllLong (insert a r d)
  insert-AllLong a r [] k h = (k, tt)
  insert-AllLong a r ((b, q) ∷ d) k h =
      if_ind AllLong (a == b) (λ _. (k, h.1)) (λ _. (h.0, insert-AllLong a r d k h.1))

  abbrev found_state : Option (PaperPosition num) → PositionState num
  found_state none = no_position num
  found_state (some q) = q.state

  found-IsNotBelow :
      (a : Asset) (d : Dict (PaperPosition num))
      → IsNotBelow (zero_of num)
      → AllLong d
      → IsNotBelow (found_state (lookup a d)).quantity
  found-IsNotBelow a [] z h = z
  found-IsNotBelow a ((b, q) ∷ d) z h =
      if_ind (λ (o : Option (PaperPosition num)). IsNotBelow (found_state o).quantity) (a == b)
        (λ _. h.0) (λ _. found-IsNotBelow a d z h.1)

  bought-IsNotBelow :
      (rounding : IsRounding num) (s : PositionState num) (quantity price fees : num.F)
      {e : TransactionEffect num}
      → IsNotBelow s.quantity
      → apply_buy num s quantity price fees ≡ ok e
      → IsNotBelow e.state.quantity
  unfolding apply_buy
  bought-IsNotBelow rounding s quantity price fees {e} held h = ground (
    arith,
    h,
    rounding.round-lt_zero (num.add s.quantity quantity) (
        rounding.add-lt_zero s.quantity quantity held
          (rounding.le-lt_zero quantity (ground (arith, h)))),
  )

  buy-IsLong :
      (rounding : IsRounding num) (o : Order num) (p : PaperPortfolio num) {q : PaperPortfolio num}
      → IsLong p
      → record_buy num o p ≡ ok q
      → IsLong q
  buy-IsLong rounding o p h returned =
      let (applied, funded, same) = record_buy-ok num o p returned in
      subst IsLong (sym same) (
        insert-AllLong o.asset _ p.positions
          (bought-IsNotBelow rounding (state_of num o.asset p) o.quantity o.price o.fees
            (found-IsNotBelow o.asset p.positions rounding.zero-lt_zero h) applied)
          h)

  sell-IsLong :
      (rounding : IsRounding num) (o : Order num) (p : PaperPortfolio num) {q : PaperPortfolio num}
      → IsLong p
      → record_sell num o p ≡ ok q
      → IsLong q
  sell-IsLong rounding o p h returned =
      let (applied, r, found, same) = record_sell-ok num o p returned in
      subst IsLong (sym same) (
        insert-AllLong o.asset _ p.positions
          (apply_sell-lt_zero num rounding (state_of num o.asset p) o.quantity o.price o.fees
            applied).1
          h)

  order-IsLong :
      (rounding : IsRounding num) (o : Order num) (p : PaperPortfolio num) {q : PaperPortfolio num}
      → IsLong p
      → record_order num o p ≡ ok q
      → IsLong q
  unfolding record_order
  order-IsLong rounding o p h returned = elim (Side-cases o.side) [
    | inl bought_it ↦ buy-IsLong rounding o p h (rw (bought_it, record_order) at returned)
    | inr sold_it ↦ sell-IsLong rounding o p h (rw (sold_it, record_order) at returned)
  ]

  -- An order to sell more than is held.
  abbrev pub is_oversell : Order num → PaperPortfolio num → Bool
  is_oversell o p = elim o.side [
    | Side.buy ↦ false
    | Side.sell ↦ num.lt (state_of num o.asset p).quantity o.quantity
  ]

  abbrev pub is_refused : Result PortfolioError (PaperPortfolio num) → Bool
  is_refused (ok q) = false
  is_refused (err e) = true

  -- As the orders come, each is refused that asks to sell more than is held at that time.
  abbrev pub IsCovered : List (Order num) → PaperPortfolio num → Type 0
  IsCovered [] p = Unit
  IsCovered (o ∷ orders) p =
      (is_oversell o p ≡ true → is_refused (record_order num o p) ≡ true)
      × IsCovered orders (or_unchanged num p (record_order num o p))

  is_refused-oversell :
      (o : Order num) (p : PaperPortfolio num)
      → is_oversell o p ≡ true
      → is_refused (record_order num o p) ≡ true
  unfolding record_order record_sell apply_sell
  is_refused-oversell o p over = ground (arith, over)

  record_orders-IsCovered :
      (orders : List (Order num)) (p : PaperPortfolio num) → IsCovered orders p
  record_orders-IsCovered [] p = tt
  record_orders-IsCovered (o ∷ orders) p = (
    is_refused-oversell o p,
    record_orders-IsCovered orders (or_unchanged num p (record_order num o p)),
  )

  orders-IsLong :
      (rounding : IsRounding num) (orders : List (Order num)) (p : PaperPortfolio num)
      → IsLong p
      → IsLong (record_orders num orders p)
  unfolding record_orders
  orders-IsLong rounding [] p h = h
  orders-IsLong rounding (o ∷ orders) p h =
      orders-IsLong rounding orders (or_unchanged num p (record_order num o p))
        (either (record_order num o p) refl)
    where
      either :
          (m : Result PortfolioError (PaperPortfolio num))
          → record_order num o p ≡ m
          → IsLong (or_unchanged num p m)
      either (ok q) returned = order-IsLong rounding o p h returned
      either (err e) _ = h

  -- Whatever orders are placed one after another, from a portfolio without a short position: none is
  -- short at the end, and each order to sell more than is held at that time is refused. The arithmetic
  -- is only assumed to respect the sign of what it rounds, adds and subtracts.
  pub record_orders-IsLong :
      (rounding : IsRounding num) (orders : List (Order num)) (p : PaperPortfolio num)
      → IsLong p
      → IsLong (record_orders num orders p) × IsCovered orders p
  record_orders-IsLong rounding orders p h =
      (orders-IsLong rounding orders p h, record_orders-IsCovered orders p)

  -- A purchase that goes through leaves no cash balance below 0.
  record_buy-IsNotBelow :
      (rounding : IsRounding num) (o : Order num) (p : PaperPortfolio num) {q : PaperPortfolio num}
      → record_buy num o p ≡ ok q
      → num.lt q.cash_balance (zero_of num) ≡ false
  record_buy-IsNotBelow rounding o p returned =
      let (applied, funded, same) = record_buy-ok num o p returned in
      subst (λ (q : PaperPortfolio num). num.lt q.cash_balance (zero_of num) ≡ false) (sym same)
        (rounding.round-lt_zero _ funded)
