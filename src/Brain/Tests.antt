-- ===== src/Brain/Tests.antt =====
-- Signals and their accuracy on concrete inputs, in whole numbers.
use trading_brain.Base.{
  ℕ, ◌≤◌, ◌≡◌, ◌⊎◌, true, false, ◌&&◌, none, some, List, [], ◌∷◌, ℤ, All, length, map, keep, leb,
  ok, ◌*◌, ◌+◌,
}
use trading_brain.Quant.Whole.{whole_numbers}
use trading_brain.Data.Prices.{Price}
use trading_brain.Brain.Signals.{SignalCategory}
use trading_brain.Brain.Signals.Context.{
  Assessment, Trend, RiskRegime, SignalContext, is_thesis, is_broken,
}
use trading_brain.Brain.Signals.Engine.{
  SignalRow, SignalRunResult, active_row, generate_for_asset, run,
}
use trading_brain.Brain.Signals.Sound.{IsSignal, Answers}
use trading_brain.Brain.Signals.Severity.{
  IsWarranted, IsReview, Gives, generate_for_asset-IsWarranted,
}
use trading_brain.Brain.Signals.Runs.{all_signals, signal_of, run_total}
use trading_brain.Brain.Learning.{Signal, forward_return, signal_accuracy, block_of, key_of, ts_of}
use trading_brain.Brain.Learning.Accuracy.{
  forward_return-keep, signal_accuracy_balances, total_of, is_directional, is_category,
}

-- A position at a loss under a weakened thesis, in a bear market.
abbrev context : SignalContext whole_numbers
context = record {
  quant = record {
    last_close = some (ℤ.pos 40);
    sma_200 = some (ℤ.pos 60);
    rsi_14 = none;
    momentum_20d = some (ℤ.negsuc 2);
  };
  regime = some (record { regime = Trend.bearish; risk_regime = RiskRegime.risk_off });
  thesis = some (record { current_assessment = Assessment.weakened; last_reviewed_at = some 5 });
  has_research = true;
  queue_entries = [];
  position = some (record { quantity = ℤ.pos 10; average_cost = ℤ.pos 100 });
  is_watched = true;
  pe_ratio = none;
  now = 50;
}

-- The same without a thesis.
abbrev context_of_exit : SignalContext whole_numbers
context_of_exit = record context { thesis = none }

generate_for_asset-IsWarranted_example :
    Answers (IsWarranted whole_numbers context) (generate_for_asset whole_numbers context)
    × ((is_thesis is_broken context.thesis ≡ false)
        ⊎ Gives (IsReview whole_numbers context) (generate_for_asset whole_numbers context))
generate_for_asset-IsWarranted_example = generate_for_asset-IsWarranted whole_numbers context

abbrev assets : List (ℕ × SignalContext whole_numbers)
assets = (3, context) ∷ (4, context_of_exit) ∷ []

run_total_example :
    (stored : List SignalRow) × (r : SignalRunResult) × (run whole_numbers true 9 assets []
      ≡ ok (stored, r))
    × (r.assets_scanned ≡ 2)
    × (r.signals ≡ map signal_of (all_signals whole_numbers assets))
    × (length (all_signals whole_numbers assets) ≤ 2)
    × (r.persisted ≡ length (all_signals whole_numbers assets))
    × (stored ≡ map (active_row 9) (all_signals whole_numbers assets))
    × All (λ x. IsSignal (signal_of x)) (all_signals whole_numbers assets)
run_total_example = run_total whole_numbers true 9 assets []

abbrev price : ℕ → ℕ → Price whole_numbers
price day close = record {
  asset_id = 7;
  interval = 0;
  source = 4;
  bar = record {
    ts = day * 86_400_000_000;
    open_price = ℤ.pos close;
    high = ℤ.pos close;
    low = ℤ.pos close;
    close = ℤ.pos close;
    volume = ℤ.pos 10;
  };
}

-- The last price lies after the horizon of 30 days.
abbrev prices : List (Price whole_numbers)
prices = price 1 10 ∷ price 20 30 ∷ price 50 90 ∷ []

forward_return-keep_example :
    forward_return whole_numbers 7 86_400_000_000 30 (
      keep
        (λ (r : Price whole_numbers).
          leb (ts_of whole_numbers r) (86_400_000_000 + 30 * 86_400_000_000))
        prices)
    ≡ forward_return whole_numbers 7 86_400_000_000 30 prices
forward_return-keep_example = forward_return-keep whole_numbers 7 86_400_000_000 30 prices

abbrev signals : List Signal
signals =
    record { asset_id = 7; category = SignalCategory.accumulate; generated_at = 86_400_000_000 }
    ∷ record { asset_id = 7; category = SignalCategory.watch; generated_at = 86_400_000_001 }
    ∷ []

signal_accuracy_balances_example :
    (total_of
        (signal_accuracy whole_numbers 0 90_000_000_000 30
          (ℤ.negsuc 0)
          prices
          (7 ∷ [])
          signals).0.overall
      ≡ length (
          keep is_directional (
            keep
              (λ (s : Signal). leb 0 s.generated_at && leb s.generated_at 90_000_000_000)
              signals)))
    × (total_of (
          block_of
            (key_of SignalCategory.accumulate)
            (signal_accuracy whole_numbers 0 90_000_000_000 30
              (ℤ.negsuc 0)
              prices
              (7 ∷ [])
              signals).0.by_category)
        ≡ length (
            keep (is_category SignalCategory.accumulate) (
              keep
                (λ (s : Signal). leb 0 s.generated_at && leb s.generated_at 90_000_000_000)
                signals)))
signal_accuracy_balances_example =
    signal_accuracy_balances whole_numbers 30 prices 0 90_000_000_000 (ℤ.negsuc 0) (7 ∷ []) signals
      SignalCategory.accumulate
