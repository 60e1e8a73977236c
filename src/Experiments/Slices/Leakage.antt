-- ===== src/Experiments/Slices/Leakage.antt =====
-- No bar of the future is in a slice.
use trading_brain.Base.{ℕ, ◌<◌}
use trading_brain.Quant.Floats.{Floats}
use trading_brain.Backtest.Schemas.{PriceBar}
use trading_brain.Experiments.Slices.{date_of, available_at}

module _ (num : Floats) where
  -- A bar that was available before a date.
  abbrev pub IsKnown : ℕ → ℕ → PriceBar num → Type 0
  IsKnown lag cutoff b = date_of (available_at num lag b) < cutoff
