-- ===== src/Brain/Signals/Engine.antt =====
-- `SignalEngine` of brain/signals/engine.py, on assets with their contexts, and `save_signal` of
-- data/storage/signal_repository.py. Of a row of the table of signals, the texts and what repeats the signal
-- are left out.
use trading_brain.Base.{
  ℕ, ◌+◌, Bool, Option, none, some, List, [], ◌∷◌, ◌++◌, if◌then◌else◌, length, Result, ok, err,
  ◌>>=◌, ◌==◌,
}
use trading_brain.Quant.Floats.{Floats}
use trading_brain.Brain.Signals.{SignalError, GeneratedSignal}
use trading_brain.Brain.Signals.Context.{Context}
use trading_brain.Brain.Signals.Rules.{Answer, rules}

-- `STATUS_ACTIVE`, `STATUS_ACKNOWLEDGED` and `STATUS_DISMISSED`
pub data SignalStatus : Type 0 where
  active acknowledged dismissed : SignalStatus

-- A row of models/signal.py.
pub record SignalRow : Type 0 where
  pub asset_id : ℕ
  pub signal : GeneratedSignal
  pub status : SignalStatus
  pub generated_at : ℕ

abbrev pub active_row : ℕ → ℕ × GeneratedSignal → SignalRow
active_row now (asset_id, s) = record {
  asset_id = asset_id;
  signal = s;
  status = SignalStatus.active;
  generated_at = now;
}

-- `save_signal`
unfoldable pub save_signal :
    ℕ → ℕ → GeneratedSignal → List SignalRow → Result SignalError (List SignalRow)
save_signal now asset_id s table =
    if length s.evidence == 0
    then err SignalError.no_evidence
    else ok (table ++ active_row now (asset_id, s) ∷ [])

pub record SignalRunResult : Type 0 where
  pub assets_scanned : ℕ
  pub signals : List GeneratedSignal
  pub persisted : ℕ

-- What the loop keeps: the table of signals, and the result.
abbrev pub Run : Type 0
Run = List SignalRow × SignalRunResult

-- The rest of the loop's body, on the signal of an asset.
unfoldable pub with_signal :
    Bool → (now asset_id : ℕ) → Option GeneratedSignal → Run → Result SignalError Run
unfolding save_signal
with_signal persist now asset_id none (table, r) = ok (table, r)
with_signal persist now asset_id (some s) (table, r) =
    let r1 : SignalRunResult = record r { signals = r.signals ++ s ∷ [] } in
    if persist
    then (save_signal now asset_id s table >>= λ t.
        ok (t, record r1 { persisted = r.persisted + 1 }))
    else ok (table, r1)

module _ (num : Floats) where
  -- The first rule that fires.
  unfoldable pub first_signal : List (Context num → Answer) → Context num → Answer
  first_signal [] c = ok none
  first_signal (rule ∷ rest) c =
      let later = first_signal rest c in
      rule c >>= λ o. elim o [ none ↦ later | some s ↦ ok (some s) ]

  -- `generate_for_asset`
  unfoldable pub generate_for_asset : Context num → Answer
  unfolding first_signal
  generate_for_asset c = first_signal (rules num) c

  -- The loop of `run` over the assets.
  unfoldable pub scan : Bool → (now : ℕ) → List (ℕ × Context num) → Run → Result SignalError Run
  unfolding first_signal with_signal
  scan persist now [] run = ok run
  scan persist now ((asset_id, c) ∷ assets) run = first_signal (rules num) c >>= λ o.
      with_signal persist now asset_id o run >>= λ next. scan persist now assets next

  -- `run`
  unfoldable pub run :
      Bool → (now : ℕ) → List (ℕ × Context num) → List SignalRow → Result SignalError Run
  unfolding scan
  run persist now assets table =
      scan persist now assets
        (table, record { assets_scanned = length assets; signals = []; persisted = 0 })
