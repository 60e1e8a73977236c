-- ===== src/Brain/Learning.antt =====
-- `forward_return` and `signal_accuracy` of brain/learning/metrics.py. The signals of the table are those
-- with a category, in the order of their times.
pub mod Accuracy
pub mod Theses
use trading_brain.Base.{
  ℕ, ◌+◌, ◌*◌, Bool, true, false, not, ◌&&◌, ◌||◌, Option, none, some, List, [], ◌∷◌, map, ltb, leb,
  ◌==◌, if◌then◌else◌, when_some, keep, any, length, last, Dict, lookup, insert,
}
use trading_brain.Quant.Floats.{Floats}
use trading_brain.Quant.Accounting.{zero_of}
use trading_brain.Data.Prices.{Price, get_price_bars}
use trading_brain.Brain.Signals.{SignalCategory}

-- A row of the table of signals.
pub record Signal : Type 0 where
  pub asset_id : ℕ
  pub category : SignalCategory
  pub generated_at : ℕ

-- `AccuracyBlock`
pub record AccuracyBlock : Type 0 where
  pub correct : ℕ
  pub incorrect : ℕ
  pub unresolved : ℕ

abbrev pub no_block : AccuracyBlock
no_block = record { correct = 0; incorrect = 0; unresolved = 0 }

-- `SignalAccuracy`: the blocks by category, the overall block, and the assets that were warned of.
pub record SignalAccuracy : Type 0 where
  pub by_category : Dict AccuracyBlock
  pub overall : AccuracyBlock
  pub warned_assets : List ℕ

abbrev pub no_accuracy : SignalAccuracy
no_accuracy = record { by_category = []; overall = no_block; warned_assets = [] }

-- `DIRECTIONAL_SIGNALS.get`: whether a rise is what would confirm the signal.
abbrev pub expects_rise : SignalCategory → Option Bool
expects_rise SignalCategory.accumulate = some true
expects_rise SignalCategory.reduce = some false
expects_rise SignalCategory.exit_review = some false
expects_rise _ = none

-- The key of a category in `by_category`.
abbrev pub key_of : SignalCategory → ℕ
key_of SignalCategory.watch = 0
key_of SignalCategory.research = 1
key_of SignalCategory.accumulate = 2
key_of SignalCategory.reduce = 3
key_of SignalCategory.exit_review = 4
key_of SignalCategory.thesis_review = 5

-- How one signal turned out: `none` is unresolved.
abbrev pub with_outcome : Option Bool → AccuracyBlock → AccuracyBlock
with_outcome none b = record b { unresolved = b.unresolved + 1 }
with_outcome (some true) b = record b { correct = b.correct + 1 }
with_outcome (some false) b = record b { incorrect = b.incorrect + 1 }

-- `by_category.setdefault(category, AccuracyBlock())`
abbrev pub block_of : ℕ → Dict AccuracyBlock → AccuracyBlock
block_of key blocks = when_some (lookup key blocks) no_block λ b. b

module _ (num : Floats) where
  abbrev pub ts_of : Price num → ℕ
  ts_of r = r.bar.ts

  abbrev pub positive_close : Price num → Option num.F
  positive_close r = if num.le r.bar.close (zero_of num) then none else some r.bar.close

  abbrev pub return_from : num.F → Price num → num.F
  return_from start r = num.round6 (num.sub (num.div r.bar.close start) (num.whole 1))

  -- `forward_return`, on the bars of the asset.
  unfoldable pub return_of_bars : ℕ → ℕ → List (Price num) → Option num.F
  return_of_bars anchor deadline bars =
      if ltb (length bars) 2
      then none
      else when_some (last (keep (λ r. leb (ts_of r) anchor) bars)) none λ before.
        when_some (positive_close before) none λ start.
          when_some (last (keep (λ r. ltb anchor (ts_of r) && leb (ts_of r) deadline) bars)) none
            λ r. some (return_from start r)

  -- The interval of daily bars is 0.
  unfoldable pub forward_return : ℕ → ℕ → ℕ → List (Price num) → Option num.F
  unfolding return_of_bars get_price_bars
  forward_return asset_id from_time horizon_days table =
      return_of_bars from_time (from_time + horizon_days * 86_400_000_000)
        (get_price_bars num asset_id 0 none none none table)

  -- `correct = (move > 0) if expected > 0 else (move < 0)`
  abbrev pub is_correct : Bool → num.F → Bool
  is_correct rise move = if rise then num.lt (zero_of num) move else num.lt move (zero_of num)

  abbrev pub outcome_of : Bool → Option num.F → Option Bool
  outcome_of rise move = when_some move none λ m. some (is_correct rise m)

  abbrev pub warned_by : ℕ → Bool → Option num.F → List ℕ → List ℕ
  warned_by asset_id rise move warned =
      when_some move warned λ _. if rise then warned else asset_id ∷ warned

  -- One directional signal of the period.
  abbrev pub scored : Signal → Bool → Option num.F → SignalAccuracy → SignalAccuracy
  scored s rise move a = record {
    by_category =
        insert (key_of s.category)
          (with_outcome (outcome_of rise move) (block_of (key_of s.category) a.by_category))
          a.by_category;
    overall = with_outcome (outcome_of rise move) a.overall;
    warned_assets = warned_by s.asset_id rise move a.warned_assets;
  }

  -- The loop of `signal_accuracy` over the signals of the period.
  unfoldable pub score_all : ℕ → List (Price num) → List Signal → SignalAccuracy → SignalAccuracy
  unfolding forward_return
  score_all horizon_days table [] a = a
  score_all horizon_days table (s ∷ signals) a = score_all horizon_days table signals (
      when_some (expects_rise s.category) a
        λ rise. scored s rise (forward_return s.asset_id s.generated_at horizon_days table) a)

  -- `_count_false_negatives`
  unfoldable pub count_false_negatives : List (Price num) → List ℕ → ℕ → ℕ → num.F → List ℕ → ℕ
  unfolding forward_return
  count_false_negatives table warned start horizon_days threshold assets = length (
      keep
        (λ (asset : ℕ).
          not (any (λ (w : ℕ). asset == w) warned)
          && when_some (forward_return asset start horizon_days table) false
              (λ move. num.le move threshold))
        assets)

  -- `signal_accuracy`: the blocks and the false negatives.
  unfoldable pub signal_accuracy :
      ℕ → ℕ → ℕ → num.F → List (Price num) → List ℕ → List Signal → SignalAccuracy × ℕ
  unfolding score_all count_false_negatives
  signal_accuracy start until horizon_days threshold table assets signals =
      let in_period =
        keep (λ (s : Signal). leb start s.generated_at && leb s.generated_at until) signals in
      let a = score_all horizon_days table in_period no_accuracy in
      (a, count_false_negatives table a.warned_assets start horizon_days threshold assets)
