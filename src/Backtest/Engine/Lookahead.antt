-- ===== src/Backtest/Engine/Lookahead.antt =====
-- No run looks ahead.
use trading_brain.Base.{ℕ, ◌≤◌, ◌≡◌, refl, Option, some, List, [], ◌∷◌, All, >>=-cong}
use trading_brain.Quant.Floats.{Floats}
use trading_brain.Backtest.Schemas.{BacktestConfig}
use trading_brain.Backtest.MarketView.{Series, bars_of}
use trading_brain.Backtest.Fills.{PendingOrder, Book, Sizer, find_at, execute, execute_pending}
use trading_brain.Backtest.Engine.{
  Strategy, Running, history_of, build_timeline, observe, step, loop, run, initial,
}
use trading_brain.Backtest.Engine.Timeline.{timeline_below}
use trading_brain.Backtest.Engine.Cuts.{cut, IsDict, at-cut, bar-cut, timeline-cut}

module _ (num : Floats) (config : BacktestConfig num) (size : Sizer num) (strategy : Strategy num)
    (t : ℕ) (h : Series num) (d : IsDict num h) where
  execute_pending-cut :
      (s : ℕ) (orders : List (PendingOrder num)) (b : Book num)
      → s ≤ t
      → execute_pending num config size (history_of num (cut num t h)) s orders b
        ≡ execute_pending num config size (history_of num h) s orders b
  unfolding execute_pending
  execute_pending-cut s [] b le = refl
  execute_pending-cut s (o ∷ orders) b le = rw (bar-cut num s t o.signal.ticker h le d) (
      >>=-cong
        (execute num config size s o
          (find_at num s (bars_of num o.signal.ticker (history_of num h))) b)
        _ _ (λ b1. execute_pending-cut s orders b1 le))

  step-cut :
      (s : ℕ) (r : Running num config size strategy)
      → s ≤ t
      → step num config size strategy (history_of num (cut num t h)) s r
        ≡ step num config size strategy (history_of num h) s r
  unfolding step observe
  step-cut s (b, memory) le = rw (execute_pending-cut s b.pending b le, at-cut num s t h le) refl

  loop-cut :
      (timeline : List ℕ) (r : Running num config size strategy)
      → All (λ s. s ≤ t) timeline
      → loop num config size strategy (history_of num (cut num t h)) timeline r
        ≡ loop num config size strategy (history_of num h) timeline r
  unfolding loop
  loop-cut [] r k = refl
  loop-cut (s ∷ timeline) r k = rw (step-cut s r k.0) (
      >>=-cong (step num config size strategy (history_of num h) s r) _ _
        (λ r1. loop-cut timeline r1 k.1))

  -- No lookahead: a run that ends at `t` gives the very result, errors included, that it gives on data
  -- from which every bar after `t` has been deleted, for every strategy, sizer and configuration, if no
  -- ticker has two series.
  pub run-cut :
      (start : Option ℕ) (memory : strategy.Memory)
      → run num config size strategy memory (cut num t h) start (some t)
        ≡ run num config size strategy memory h start (some t)
  unfolding run
  run-cut start memory =
      let timeline : List ℕ = build_timeline num (history_of num h) start (some t) in
      rw
        (
          timeline-cut num start t h,
          loop-cut timeline (initial num config size strategy memory)
              (timeline_below num (history_of num h) start t),
        )
        refl
