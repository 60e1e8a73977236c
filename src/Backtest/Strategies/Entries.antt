-- ===== src/Backtest/Strategies/Entries.antt =====
-- What the strategies ask for over a whole run, and the length and the warm-up of the moving average.
use trading_brain.Base.{
  ℕ, ◌+◌, ◌≤◌, ◌≡◌, ap, arith, Bool, true, false, not, ◌&&◌, ◌||◌, Option, none, some, List, [],
  ◌∷◌, ◌++◌, ◌==◌, if◌then◌else◌, keep, length, length-append, keep-append, Bool-cases,
  Option-cases, inl, inr,
}
use trading_brain.Quant.Floats.{Floats}
use trading_brain.Backtest.Schemas.{Ticker, SignalAction, StrategySignal}
use trading_brain.Backtest.MarketView.{MarketView, is_current, closes}
use trading_brain.Backtest.Engine.{Strategy}
use trading_brain.Backtest.Strategies.{
  is_in, discard, universe, enter_all, buy_and_hold, after_action, ma_cross, decision, cross_all,
  crossing, averages,
}

abbrev number : Bool → ℕ
number true = 1
number false = 0

abbrev is_buy : SignalAction → Bool
is_buy SignalAction.buy = true
is_buy _ = false

abbrev is_sell : SignalAction → Bool
is_sell SignalAction.sell = true
is_sell _ = false

is_in-discard :
    (t u : Ticker) (ts : List Ticker)
    → is_in t (discard u ts) ≡ (if t == u then false else is_in t ts)
is_in-discard t u [] = ground arith
is_in-discard t u (v ∷ ts) = ground (arith, is_in-discard t u ts)

module _ (num : Floats) where
  -- How many signals there are for a ticker, and how many of them are purchases and sales.
  abbrev pub count_for : Ticker → List (StrategySignal num) → ℕ
  count_for t signals = length (keep (λ (s : StrategySignal num). s.ticker == t) signals)

  abbrev pub buys_for : Ticker → List (StrategySignal num) → ℕ
  buys_for t signals =
      length (keep (λ (s : StrategySignal num). s.ticker == t && is_buy s.action) signals)

  abbrev pub sells_for : Ticker → List (StrategySignal num) → ℕ
  sells_for t signals =
      length (keep (λ (s : StrategySignal num). s.ticker == t && is_sell s.action) signals)

  -- What a strategy answers to views one after another.
  abbrev pub answers :
      (strategy : Strategy num)
      → List (MarketView num)
      → strategy.Memory
      → strategy.Memory × List (StrategySignal num)
  answers strategy [] memory = (memory, [])
  answers strategy (view ∷ views) memory =
      let (memory', signals) = strategy.on_bar view memory in
      let rest = answers strategy views memory' in (rest.0, signals ++ rest.1)

  enter_all-count_for :
      (view : MarketView num) (ts bought : List Ticker) (t : Ticker)
      → let (bought', signals) = enter_all num view ts bought in
        number (is_in t bought) + count_for t signals ≡ number (is_in t bought')
  unfolding enter_all
  enter_all-count_for view [] bought t = omega arith
  enter_all-count_for view (u ∷ ts) bought t =
      elim (Bool-cases (is_in u bought || not (is_current num u view))) [
        | inl skip ↦ ground (arith, skip, enter_all-count_for view ts bought t)
        | inr enter ↦ elim (Bool-cases (t == u)) [
          | inl same ↦
              let equal : t ≡ u = ground (arith, same) in
              ground (
                arith,
                enter,
                same,
                ap (λ (k : Ticker). is_in k bought) equal,
                enter_all-count_for view ts (u ∷ bought) t,
              )
          | inr other ↦ ground (arith, enter, other, enter_all-count_for view ts (u ∷ bought) t)
        ]
      ]

  answers-count_for :
      (chosen : Option (List Ticker)) (views : List (MarketView num)) (bought : List Ticker)
      (t : Ticker)
      → let (bought', signals) = answers (buy_and_hold num chosen) views bought in
        number (is_in t bought) + count_for t signals ≡ number (is_in t bought')
  answers-count_for chosen [] bought t = omega arith
  answers-count_for chosen (view ∷ views) bought t =
      let entered = enter_all num view (universe num chosen view) bought in
      omega (
        arith,
        enter_all-count_for view (universe num chosen view) bought t,
        answers-count_for chosen views entered.0 t,
        length-append {0} (keep (λ (s : StrategySignal num). s.ticker == t) entered.1) (
            keep (λ (s : StrategySignal num). s.ticker == t)
              (answers (buy_and_hold num chosen) views entered.0).1),
        ap length (
            keep-append {0} (λ (s : StrategySignal num). s.ticker == t) entered.1
              (answers (buy_and_hold num chosen) views entered.0).1),
      )

  -- From its start on, whatever the views are, buying and holding asks for a ticker at most once.
  pub buy_and_hold-at_most_once :
      (chosen : Option (List Ticker)) (views : List (MarketView num)) (memory : List Ticker)
      (t : Ticker)
      → let strategy = buy_and_hold num chosen in
        count_for t (answers strategy views (strategy.on_start memory)).1 ≤ 1
  buy_and_hold-at_most_once chosen views memory t =
      ground (arith, answers-count_for chosen views [] t)

  -- A ticker is bought only while it is not held long, and sold only while it is.
  decision_lem :
      (fast slow : ℕ) (view : MarketView num) (u : Ticker) (long : List Ticker) (a : SignalAction)
      → decision num fast slow view u long ≡ some a
      → (number (is_in u long) + number (is_buy a)
          ≡ number (is_sell a) + number (is_in u (after_action num u a long)))
        × ((t : Ticker) → (t == u) ≡ false → is_in t (after_action num u a long) ≡ is_in t long)
  decision_lem fast slow view u long a h = elim (Bool-cases (is_current num u view)) [
    | inr absent ↦ ground (arith, h, absent)
    | inl current ↦
        crossed (averages num fast slow (closes num u none view)) a (ground (arith, h, current))
  ]
    where
      crossed :
          (o : Option (num.F × num.F)) (a : SignalAction)
          → crossing num o (is_in u long) ≡ some a
          → (number (is_in u long) + number (is_buy a)
              ≡ number (is_sell a) + number (is_in u (after_action num u a long)))
            × ((t : Ticker) → (t == u) ≡ false → is_in t (after_action num u a long) ≡ is_in t long)
      crossed none a k = ground (arith, k)
      crossed (some (x, y)) SignalAction.buy k =
          (ground (arith, k), λ t other. ground (arith, other))
      crossed (some (x, y)) SignalAction.sell k = (
        ground (arith, k, is_in-discard u u long),
        λ t other. ground (arith, other, is_in-discard t u long),
      )
      crossed (some (x, y)) SignalAction.hold k = ground (arith, k)

  cross_all_balance :
      (fast slow : ℕ) (view : MarketView num) (ts long : List Ticker) (t : Ticker)
      → let (long', signals) = cross_all num fast slow view ts long in
        number (is_in t long) + buys_for t signals ≡ sells_for t signals + number (is_in t long')
  unfolding cross_all
  cross_all_balance fast slow view [] long t = omega arith
  cross_all_balance fast slow view (u ∷ ts) long t =
      elim (Option-cases (decision num fast slow view u long)) [
        | inl stay ↦ ground (arith, stay, cross_all_balance fast slow view ts long t)
        | inr (a, acts) ↦
            let (own, others) = decision_lem fast slow view u long a acts in
            let rest = cross_all_balance fast slow view ts (after_action num u a long) t in
            elim (Bool-cases (t == u)) [
              | inl same ↦
                  let equal : t ≡ u = ground (arith, same) in
                  ground (
                    arith,
                    acts,
                    same,
                    own,
                    rest,
                    ap (λ (k : Ticker). is_in k long) equal,
                    ap (λ (k : Ticker). is_in k (after_action num u a long)) equal,
                  )
              | inr other ↦ ground (arith, acts, other, others t other, rest)
            ]
      ]

  answers_balance :
      (fast slow : ℕ) (chosen : Option (List Ticker)) (views : List (MarketView num))
      (long : List Ticker) (t : Ticker)
      → let (long', signals) = answers (ma_cross num fast slow chosen) views long in
        number (is_in t long) + buys_for t signals ≡ sells_for t signals + number (is_in t long')
  answers_balance fast slow chosen [] long t = omega arith
  answers_balance fast slow chosen (view ∷ views) long t =
      let crossed = cross_all num fast slow view (universe num chosen view) long in
      let later = (answers (ma_cross num fast slow chosen) views crossed.0).1 in
      let buys = λ (s : StrategySignal num). s.ticker == t && is_buy s.action in
      let sells = λ (s : StrategySignal num). s.ticker == t && is_sell s.action in
      omega (
        arith,
        cross_all_balance fast slow view (universe num chosen view) long t,
        answers_balance fast slow chosen views crossed.0 t,
        length-append {0} (keep buys crossed.1) (keep buys later),
        ap length (keep-append {0} buys crossed.1 later),
        length-append {0} (keep sells crossed.1) (keep sells later),
        ap length (keep-append {0} sells crossed.1 later),
      )

  -- From its start on, whatever the views are, the crossing of averages sells a ticker no more often than
  -- it has bought it, and has bought it at most once more: its purchases and sales take turns.
  pub ma_cross_takes_turns :
      (fast slow : ℕ) (chosen : Option (List Ticker)) (views : List (MarketView num))
      (memory : List Ticker) (t : Ticker)
      → let strategy = ma_cross num fast slow chosen in
        let signals = (answers strategy views (strategy.on_start memory)).1 in
        (sells_for t signals ≤ buys_for t signals) × (buys_for t signals ≤ sells_for t signals + 1)
  ma_cross_takes_turns fast slow chosen views memory t =
      ground (arith, answers_balance fast slow chosen views [] t)
