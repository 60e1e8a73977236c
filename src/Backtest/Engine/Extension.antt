-- ===== src/Backtest/Engine/Extension.antt =====
-- A longer run extends a shorter one.
use trading_brain.Base.{
  ℕ, ◌≤◌, ◌≡◌, refl, ap, sym, ◌∙◌, subst, arith, Option, some, List, [], ◌∷◌, ◌++◌, Result, ok, err,
  ◌>>=◌, >>=-eq-ok, >>=-cong, >>=_assoc, append-nil,
}
use trading_brain.Quant.Floats.{Floats}
use trading_brain.Quant.Accounting.{PortfolioError}
use trading_brain.Backtest.Schemas.{BacktestConfig}
use trading_brain.Backtest.MarketView.{Series}
use trading_brain.Backtest.Fills.{Sizer, execute_pending}
use trading_brain.Backtest.Engine.{
  Strategy, Running, BacktestResult, history_of, build_timeline, observe, step, loop, run, initial,
  finish,
}
use trading_brain.Backtest.Engine.Timeline.{timeline-extends}
use trading_brain.Backtest.Engine.Growth.{
  Extends, Extends-refl, Extends-trans, AllExtend, execute_pending-Extends,
}

module _ (num : Floats) (config : BacktestConfig num) (size : Sizer num)
    (strategy : Strategy num) where
  step-Extends :
      (history : Series num) (t : ℕ) (r : Running num config size strategy)
      {r1 : Running num config size strategy}
      → step num config size strategy history t r ≡ ok r1
      → Extends num r.0 r1.0
  unfolding step observe
  step-Extends history t (b, memory) {r1} h =
      let filled = execute_pending num config size history t b.pending b in
      let (c, went, rest) = >>=-eq-ok filled _ h in
      subst (λ (r : Running num config size strategy). Extends num b r.0)
        {x = observe num config size strategy history t (c, memory)} {y = r1} (ground (arith, rest))
        (Extends-trans num b c _
          (subst (AllExtend num b) went
            (execute_pending-Extends num config size history t b.pending b))
          (record {
            points = _;
            fills = [];
            trades = [];
            curve_grows = refl;
            fills_grow = sym (append-nil c.fills);
            trades_grow = sym (append-nil c.closed_trades);
          }))

  loop-Extends :
      (history : Series num) (timeline : List ℕ) (r : Running num config size strategy)
      {r1 : Running num config size strategy}
      → loop num config size strategy history timeline r ≡ ok r1
      → Extends num r.0 r1.0
  unfolding loop
  loop-Extends history [] r {r1} h =
      subst (λ (q : Running num config size strategy). Extends num r.0 q.0) {x = r} {y = r1}
        (ground (arith, h)) (Extends-refl num r.0)
  loop-Extends history (t ∷ timeline) r {r1} h =
      let (q, first_step, rest) = >>=-eq-ok (step num config size strategy history t r) _ h in
      Extends-trans num r.0 q.0 r1.0 (step-Extends history t r first_step)
        (loop-Extends history timeline q rest)

  loop-append :
      (history : Series num) (xs ys : List ℕ) (r : Running num config size strategy)
      → loop num config size strategy history (xs ++ ys) r ≡ (
          loop num config size strategy history xs r >>= λ q.
          loop num config size strategy history ys q)
  unfolding loop
  loop-append history [] ys r = refl
  loop-append history (t ∷ xs) ys r =
      >>=-cong (step num config size strategy history t r) _ _ (loop-append history xs ys)
      ∙ sym (
          >>=_assoc (step num config size strategy history t r)
            (loop num config size strategy history xs) (loop num config size strategy history ys))

  returned_book :
      (timeline : List ℕ) (m : Result PortfolioError (Running num config size strategy))
      {long : BacktestResult num}
      → (m >>= λ r. ok (finish num config size strategy timeline r)) ≡ ok long
      → (r : Running num config size strategy) × (m ≡ ok r)
        × (finish num config size strategy timeline r ≡ long)
  returned_book timeline (ok r) {long} h = (r, refl, ground (arith, h))
  returned_book timeline (err e) h = cc

  assemble :
      (sooner later : List ℕ) (m : Result PortfolioError (Running num config size strategy))
      (q r : Running num config size strategy) {long : BacktestResult num}
      → m ≡ ok q
      → Extends num q.0 r.0
      → finish num config size strategy later r ≡ long
      → (short : BacktestResult num) × ((m >>= λ x. ok (finish num config size strategy sooner x))
          ≡ ok short)
        × Extends num short.book long.book
  assemble sooner later m q r first_part e finished = (
    finish num config size strategy sooner q,
    rw first_part refl,
    subst
        (λ (b : BacktestResult num).
          Extends num (finish num config size strategy sooner q).book b.book)
        finished
        (record {
          points = e.points;
          fills = e.fills;
          trades = e.trades;
          curve_grows = e.curve_grows;
          fills_grow = e.fills_grow;
          trades_grow = e.trades_grow;
        }),
  )

  -- What is known at `t` is never revised: where a run to a later end returns, the run to `t` returns
  -- too, and its equity curve, its fills and its closed trades are the beginnings of those of the
  -- longer run.
  pub run-Extends :
      (memory : strategy.Memory) (h : Series num) (start : Option ℕ) (t u : ℕ)
      (long : BacktestResult num)
      → t ≤ u
      → run num config size strategy memory h start (some u) ≡ ok long
      → (short : BacktestResult num) × (run num config size strategy memory h start (some t)
          ≡ ok short)
        × Extends num short.book long.book
  unfolding run
  run-Extends memory h start t u long le returned =
      let history : Series num = history_of num h in
      let (rest, later) = timeline-extends num history start t u le in
      let begin : Running num config size strategy = initial num config size strategy memory in
      let sooner : List ℕ = build_timeline num history start (some t) in
      let (r, looped, finished) =
        returned_book (build_timeline num history start (some u))
          (loop num config size strategy history (build_timeline num history start (some u)) begin)
          returned in
      let (q, first_part, second_part) =
        >>=-eq-ok (loop num config size strategy history sooner begin) _ (
          sym (loop-append history sooner rest begin)
          ∙ ap (λ ts. loop num config size strategy history ts begin) (sym later)
          ∙ looped) in
      assemble sooner (build_timeline num history start (some u))
        (loop num config size strategy history sooner begin) q r first_part
        (loop-Extends history rest q second_part) finished
