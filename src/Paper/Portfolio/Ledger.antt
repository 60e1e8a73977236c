-- ===== src/Paper/Portfolio/Ledger.antt =====
-- The ledger reproduces the portfolio.
use trading_brain.Base.{
  ◌≡◌, refl, ap, sym, ◌∙◌, subst, arith, false, some, List, [], ◌∷◌, ◌++◌, ◌==◌, if◌then◌else◌,
  lookup, insert, lookup-insert, Result, ok, err, >>=-eq-ok, Option-cases, Bool-cases, ◌⊎◌, inl,
  inr,
}
use trading_brain.Quant.Floats.{Floats}
use trading_brain.Quant.Accounting.{
  PortfolioError, PositionState, TransactionEffect, zero_of, no_position, apply_buy, apply_sell,
  bought, sold,
}
use trading_brain.Paper.Portfolio.{
  Asset, Side, PaperPosition, PaperTransaction, PaperPortfolio, Order, create_portfolio, state_of,
  transaction, after_buy, after_sell, record_buy, record_sell, record_order, record_orders,
  or_unchanged,
}

pub Side-cases : (s : Side) → (s ≡ Side.buy) ⊎ (s ≡ Side.sell)
Side-cases Side.buy = inl refl
Side-cases Side.sell = inr refl

module _ (num : Floats) where
  -- The effect that a row of the ledger says an asset's position had.
  abbrev pub replay_one : Asset → PaperTransaction num → PositionState num → PositionState num
  replay_one a t s =
      if a == t.asset
      then elim t.side [
        | Side.buy ↦ (bought num s t.quantity t.price t.fees).state
        | Side.sell ↦ (sold num s t.quantity t.price t.fees).state
      ]
      else s

  abbrev pub replay : Asset → List (PaperTransaction num) → PositionState num → PositionState num
  replay a [] s = s
  replay a (t ∷ ts) s = replay a ts (replay_one a t s)

  abbrev pub replay_cash : List (PaperTransaction num) → num.F → num.F
  replay_cash [] cash = cash
  replay_cash (t ∷ ts) cash = replay_cash ts (num.round6 (num.add cash t.cash_delta))

  -- Replaying the ledger from the initial cash and no positions gives the portfolio.
  pub record IsReproducible (p : PaperPortfolio num) : Type 0 where
    pub cash : replay_cash p.transactions p.initial_cash ≡ p.cash_balance
    pub positions : (a : Asset) → replay a p.transactions (no_position num) ≡ state_of num a p

  replay-append :
      (a : Asset) (ts : List (PaperTransaction num)) (t : PaperTransaction num)
      (s : PositionState num)
      → replay a (ts ++ t ∷ []) s ≡ replay_one a t (replay a ts s)
  replay-append a [] t s = refl
  replay-append a (u ∷ ts) t s = replay-append a ts t (replay_one a u s)

  replay_cash-append :
      (ts : List (PaperTransaction num)) (t : PaperTransaction num) (cash : num.F)
      → replay_cash (ts ++ t ∷ []) cash ≡ num.round6 (num.add (replay_cash ts cash) t.cash_delta)
  replay_cash-append [] t cash = refl
  replay_cash-append (u ∷ ts) t cash = replay_cash-append ts t _

  apply_buy-bought :
      (s : PositionState num) (quantity price fees : num.F) {e : TransactionEffect num}
      → apply_buy num s quantity price fees ≡ ok e
      → e ≡ bought num s quantity price fees
  unfolding apply_buy
  apply_buy-bought s quantity price fees {e} h = ground (arith, h)

  apply_sell-sold :
      (s : PositionState num) (quantity price fees : num.F) {e : TransactionEffect num}
      → apply_sell num s quantity price fees ≡ ok e
      → e ≡ sold num s quantity price fees
  unfolding apply_sell
  apply_sell-sold s quantity price fees {e} h = ground (arith, h)

  -- What both kinds of order do to the portfolio.
  recorded :
      (o : Order num) (e : TransactionEffect num) (p q : PaperPortfolio num)
      → IsReproducible p
      → q.initial_cash ≡ p.initial_cash
      → q.transactions ≡ p.transactions ++ transaction num o e ∷ []
      → q.cash_balance ≡ num.round6 (num.add p.cash_balance e.cash_delta)
      → ((a : Asset) → state_of num a q ≡ replay_one a (transaction num o e) (state_of num a p))
      → IsReproducible q
  recorded o e p q h initial ledger cash states = record {
    cash =
        rw
          (
            ledger,
            initial,
            cash,
            replay_cash-append p.transactions (transaction num o e) p.initial_cash,
            h.cash,
          )
          refl;
    positions = λ a.
        ap (λ ts. replay a ts (no_position num)) ledger
        ∙ replay-append a p.transactions (transaction num o e) (no_position num)
        ∙ ap (replay_one a (transaction num o e)) (h.positions a)
        ∙ sym (states a);
  }

  pub record_buy-ok :
      (o : Order num) (p : PaperPortfolio num) {q : PaperPortfolio num}
      → record_buy num o p ≡ ok q
      → let e = bought num (state_of num o.asset p) o.quantity o.price o.fees in
        (apply_buy num (state_of num o.asset p) o.quantity o.price o.fees ≡ ok e)
        × (num.lt (num.add p.cash_balance e.cash_delta) (zero_of num) ≡ false)
        × (q ≡ after_buy num o e p)
  unfolding record_buy apply_buy
  record_buy-ok o p {q} h = ground (arith, h)

  pub record_sell-ok :
      (o : Order num) (p : PaperPortfolio num) {q : PaperPortfolio num}
      → record_sell num o p ≡ ok q
      → let e = sold num (state_of num o.asset p) o.quantity o.price o.fees in
        (apply_sell num (state_of num o.asset p) o.quantity o.price o.fees ≡ ok e)
        × (r : PaperPosition num) × (lookup o.asset p.positions ≡ some r)
        × (q ≡ after_sell num o e r p)
  unfolding record_sell
  record_sell-ok o p {q} h =
      let (e, applied, rest) =
        >>=-eq-ok (apply_sell num (state_of num o.asset p) o.quantity o.price o.fees) _ h in
      let same = apply_sell-sold (state_of num o.asset p) o.quantity o.price o.fees applied in
      elim (Option-cases (lookup o.asset p.positions)) [
        | inl absent ↦ ground (arith, rest, absent)
        | inr (r, found) ↦ (applied ∙ ap ok same, r, found, ground (arith, rest, found, same))
      ]

  state_of-insert :
      (a b : Asset) (r : PaperPosition num) (p q : PaperPortfolio num)
      → q.positions ≡ insert b r p.positions
      → state_of num a q ≡ (if a == b then r.state else state_of num a p)
  state_of-insert a b r p q e = ground (arith, e, lookup-insert b a r p.positions)

  buy-IsReproducible :
      (o : Order num) (p : PaperPortfolio num) {q : PaperPortfolio num}
      → o.side ≡ Side.buy
      → IsReproducible p
      → record_buy num o p ≡ ok q
      → IsReproducible q
  buy-IsReproducible o p {q} side h returned =
      let (applied, funded, same) = record_buy-ok o p returned in
      let e : TransactionEffect num =
        bought num (state_of num o.asset p) o.quantity o.price o.fees in
      subst IsReproducible (sym same) (
        recorded o e p (after_buy num o e p) h refl refl refl (λ a.
          elim (Bool-cases (a == o.asset)) [
            | inl here ↦
                ground (arith, here, side, state_of-insert a o.asset _ p (after_buy num o e p) refl)
            | inr elsewhere ↦
                ground (arith, elsewhere, state_of-insert a o.asset _ p (after_buy num o e p) refl)
          ]))

  sell-IsReproducible :
      (o : Order num) (p : PaperPortfolio num) {q : PaperPortfolio num}
      → o.side ≡ Side.sell
      → IsReproducible p
      → record_sell num o p ≡ ok q
      → IsReproducible q
  sell-IsReproducible o p {q} side h returned =
      let (applied, r, found, same) = record_sell-ok o p returned in
      let e : TransactionEffect num = sold num (state_of num o.asset p) o.quantity o.price o.fees in
      subst IsReproducible (sym same) (
        recorded o e p (after_sell num o e r p) h refl refl refl (λ a.
          elim (Bool-cases (a == o.asset)) [
            | inl here ↦
                ground
                  (arith, here, side, state_of-insert a o.asset _ p (after_sell num o e r p) refl)
            | inr elsewhere ↦
                ground
                  (arith, elsewhere, state_of-insert a o.asset _ p (after_sell num o e r p) refl)
          ]))

  order-IsReproducible :
      (o : Order num) (p : PaperPortfolio num) {q : PaperPortfolio num}
      → IsReproducible p
      → record_order num o p ≡ ok q
      → IsReproducible q
  unfolding record_order
  order-IsReproducible o p {q} h returned = elim (Side-cases o.side) [
    | inl bought_it ↦ buy-IsReproducible o p bought_it h (rw (bought_it, record_order) at returned)
    | inr sold_it ↦ sell-IsReproducible o p sold_it h (rw (sold_it, record_order) at returned)
  ]

  -- Whatever orders are placed, of which some may be refused, replaying the ledger from the initial cash
  -- and no positions gives the cash balance and every position.
  pub record_orders-IsReproducible :
      (orders : List (Order num)) (p : PaperPortfolio num)
      → IsReproducible p
      → IsReproducible (record_orders num orders p)
  unfolding record_orders
  record_orders-IsReproducible [] p h = h
  record_orders-IsReproducible (o ∷ orders) p h =
      record_orders-IsReproducible orders (or_unchanged num p (record_order num o p))
        (either (record_order num o p) refl)
    where
      either :
          (m : Result PortfolioError (PaperPortfolio num))
          → record_order num o p ≡ m
          → IsReproducible (or_unchanged num p m)
      either (ok q) returned = order-IsReproducible o p h returned
      either (err e) _ = h

  pub create_portfolio-IsReproducible : (cash : num.F) → IsReproducible (create_portfolio num cash)
  unfolding create_portfolio
  create_portfolio-IsReproducible cash = record { cash = refl; positions = λ a. refl }
