-- ===== src/Experiments/Tests.antt =====
-- Folds and slices on concrete inputs, in whole numbers.
use trading_brain.Base.{
  ℕ, ◌+◌, ◌*◌, ◌≡◌, refl, arith, true, false, none, some, List, [], ◌∷◌, ℤ, All, ok, err,
}
use trading_brain.Quant.Whole.{whole_numbers}
use trading_brain.Backtest.Schemas.{PriceBar}
use trading_brain.Experiments.Audit.{Claims, is_clean, audit_dataset}
use trading_brain.Experiments.Audit.Clean.{IsChronicle, is_clean-audit_dataset}
use trading_brain.Experiments.Folds.{
  Fold, FoldError, RollingConfig, period_of, validation_of, fold_of, rolling_folds,
}
use trading_brain.Experiments.Folds.Rolling.{
  IsOutcome, IsChronological, IsApart, rolling_folds-IsRolled, rolling_folds-IsApart,
}
use trading_brain.Experiments.Slices.{BarsByTicker, day_length}

-- Ten days to train on, two to validate and five to test, in twenty-four days.
abbrev rolling : RollingConfig
rolling = record {
  period = record { start = 100; end_at = 124 };
  train_days = 10;
  validation_days = ℤ.pos 2;
  test_days = 5;
  step_days = none;
  anchored = false;
}

abbrev fold : ℕ → ℕ → Fold
fold index day = record {
  index = index;
  train = record { start = day; end_at = day + 10 };
  validation = some (record { start = day + 10; end_at = day + 12 });
  test = record { start = day + 12; end_at = day + 17 };
}

abbrev folds : List Fold
folds = fold 0 100 ∷ fold 1 105 ∷ []

two_folds : rolling_folds rolling ≡ ok folds
unfolding rolling_folds fold_of period_of validation_of
two_folds = refl

rolling_folds-IsRolled_example : IsOutcome rolling (rolling_folds rolling)
rolling_folds-IsRolled_example = rolling_folds-IsRolled rolling (omega arith)

-- A step back, from the same first fold.
back_one :
    rolling_folds (record rolling { step_days = some (ℤ.negsuc 0) }) ≡ err FoldError.overflow_error
unfolding rolling_folds fold_of period_of validation_of
back_one = refl

rolling_folds-IsApart_example : All IsChronological folds × IsApart folds
rolling_folds-IsApart_example =
    rolling_folds-IsApart rolling folds (omega arith) two_folds (omega arith)

abbrev bar : ℕ → PriceBar whole_numbers
bar day = record {
  ts = day * day_length + 5;
  open_price = ℤ.pos 5;
  high = ℤ.pos 6;
  low = ℤ.pos 4;
  close = ℤ.pos 5;
  volume = ℤ.pos 10;
}

abbrev bars : BarsByTicker whole_numbers
bars = (1, bar 90 ∷ bar 104 ∷ bar 109 ∷ bar 118 ∷ []) ∷ []

abbrev claims : Claims
claims = record {
  point_in_time_universe = true;
  delisted_included = true;
  corporate_actions_applied = true;
  fundamentals_lagged = true;
}

-- The audit of the bars is clean, with one gap in the series.
audited : is_clean (audit_dataset whole_numbers claims bars) ≡ true
unfolding is_clean audit_dataset
audited = refl

is_clean-audit_dataset_example :
    (true ≡ true)
    × (true ≡ true)
    × (true ≡ true)
    × (true ≡ true)
    × All (IsChronicle whole_numbers) bars
is_clean-audit_dataset_example = is_clean-audit_dataset whole_numbers claims bars audited
