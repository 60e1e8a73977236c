-- ===== src/Experiments/Slices.antt =====
-- The bars that a period may see: `slice_bars`, `available_at`, `assert_no_future_bars` and the audit of
-- experiments/walkforward.py. A time is in microseconds, and a date is the number of its day.
pub mod Leakage
use trading_brain.Base.{
  ℕ, zero, suc, ◌+◌, ◌-◌, ◌/◌, Bool, true, false, not, ◌&&◌, ◌||◌, Option, none, some, List, [],
  ◌∷◌, ◌++◌, map, ltb, leb, ◌==◌, if◌then◌else◌, keep, any, length, last_rows, sort, Result, ok,
  err,
}
use trading_brain.Quant.Floats.{Floats}
use trading_brain.Backtest.Schemas.{Ticker, PriceBar}
use trading_brain.Experiments.Folds.{Period, FoldError, contains}

abbrev pub day_length : ℕ
day_length = 86_400_000_000

-- `ts.date()`
abbrev pub date_of : ℕ → ℕ
date_of ts = ts / 86_400_000_000

module _ (num : Floats) where
  abbrev pub BarsByTicker : Type 0
  BarsByTicker = List (Ticker × List (PriceBar num))

  abbrev pub ts_of : PriceBar num → ℕ
  ts_of b = b.ts

  -- `available_at`
  abbrev pub available_at : ℕ → PriceBar num → ℕ
  available_at lag b = b.ts + lag

  -- The bars of one ticker that a period may see.
  unfoldable pub slice_one : Period → ℕ → ℕ → List (PriceBar num) → List (PriceBar num)
  slice_one period warmup_bars lag bars =
      let ordered = sort ts_of bars in
      let in_period = keep (λ b. contains period (date_of (available_at lag b))) ordered in
      let before = keep (λ b. ltb (date_of (available_at lag b)) period.start) ordered in
      if ltb 0 warmup_bars then last_rows warmup_bars before ++ in_period else in_period

  -- A ticker with no bars is left out.
  abbrev pub with_series : Ticker → List (PriceBar num) → BarsByTicker → BarsByTicker
  with_series ticker [] rest = rest
  with_series ticker (b ∷ bars) rest = (ticker, b ∷ bars) ∷ rest

  -- `slice_bars`
  unfoldable pub slice_bars : Period → ℕ → ℕ → BarsByTicker → BarsByTicker
  unfolding slice_one
  slice_bars period warmup_bars lag [] = []
  slice_bars period warmup_bars lag ((ticker, bars) ∷ rest) =
      with_series ticker (slice_one period warmup_bars lag bars)
        (slice_bars period warmup_bars lag rest)

  -- `assert_no_future_bars`
  abbrev pub has_offender : ℕ → BarsByTicker → Bool
  has_offender cutoff =
      any (λ (s : Ticker × List (PriceBar num)). any (λ b. leb cutoff (date_of (ts_of b))) s.1)

  unfoldable pub assert_no_future_bars : ℕ → BarsByTicker → Result FoldError (Unit {0})
  assert_no_future_bars cutoff bars_by_ticker =
      if has_offender cutoff bars_by_ticker then err FoldError.leakage_error else ok tt
