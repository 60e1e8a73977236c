-- ===== src/Brain/Signals/Runs.antt =====
-- A run of the engine over its assets.
use trading_brain.Base.{
  ℕ, ◌+◌, ◌≤◌, ◌<◌, ◌≡◌, refl, sym, ap, ◌∙◌, arith, Bool, true, false, none, some, List, [], ◌∷◌,
  ◌++◌, append_assoc, append-nil, if◌then◌else◌, length, length-append, map, All, All-append,
  Result, ok, err, ◌>>=◌,
}
use trading_brain.Quant.Floats.{Floats}
use trading_brain.Brain.Signals.{GeneratedSignal, SignalError}
use trading_brain.Brain.Signals.Context.{Context}
use trading_brain.Brain.Signals.Rules.{Answer, rules}
use trading_brain.Brain.Signals.Engine.{
  SignalRow, SignalRunResult, Run, active_row, save_signal, first_signal, generate_for_asset,
  with_signal, scan, run,
}
use trading_brain.Brain.Signals.Sound.{IsSignal, Answers}
use trading_brain.Brain.Signals.Severity.{IsWarranted, generate_for_asset-IsWarranted}

-- The signals of an answer, with the asset: one or none.
abbrev pub signals_of : ℕ → Answer → List (ℕ × GeneratedSignal)
signals_of asset_id (ok none) = []
signals_of asset_id (ok (some s)) = (asset_id, s) ∷ []
signals_of asset_id (err e) = []

abbrev pub signal_of : ℕ × GeneratedSignal → GeneratedSignal
signal_of (asset_id, s) = s

-- What a scan adds to the table and to the result.
abbrev added : Bool → ℕ → List (ℕ × GeneratedSignal) → Run → Run
added persist now new (table, r) = (
  table ++ (if persist then map (active_row now) new else []),
  record r {
    signals = r.signals ++ map signal_of new;
    persisted = r.persisted + (if persist then length new else 0);
  },
)

added-nil : (persist : Bool) (now : ℕ) (x : Run) → added persist now [] x ≡ x
added-nil true now (table, r) = ground (arith, append-nil table, append-nil r.signals)
added-nil false now (table, r) = ground (arith, append-nil table, append-nil r.signals)

with_signal_lem :
    (persist : Bool) (now asset_id : ℕ) (s : GeneratedSignal) (x : Run)
    → 0 < length s.evidence
    → with_signal persist now asset_id (some s) x ≡ ok (added persist now ((asset_id, s) ∷ []) x)
unfolding with_signal save_signal
with_signal_lem true now asset_id s (table, r) some_evidence = ground (arith, some_evidence)
with_signal_lem false now asset_id s (table, r) some_evidence = ground (arith, append-nil table)

added-added :
    (persist : Bool) (now asset_id : ℕ) (s : GeneratedSignal) (new : List (ℕ × GeneratedSignal))
    (x : Run)
    → added persist now new (added persist now ((asset_id, s) ∷ []) x)
      ≡ added persist now ((asset_id, s) ∷ new) x
added-added true now asset_id s new (table, r) = ground (
  arith,
  append_assoc table (active_row now (asset_id, s) ∷ []) (map (active_row now) new),
  append_assoc r.signals (s ∷ []) (map signal_of new),
)
added-added false now asset_id s new (table, r) =
    ground (arith, append_assoc table [] [], append_assoc r.signals (s ∷ []) (map signal_of new))

module _ (num : Floats) where
  -- The signals that the assets give one by one, with their assets.
  abbrev pub all_signals : List (ℕ × Context num) → List (ℕ × GeneratedSignal)
  all_signals [] = []
  all_signals ((asset_id, c) ∷ assets) =
      signals_of asset_id (generate_for_asset num c) ++ all_signals assets

  all_signals-length :
      (assets : List (ℕ × Context num)) → length (all_signals assets) ≤ length assets
  all_signals-length [] = omega arith
  all_signals-length ((asset_id, c) ∷ assets) = ground (
    arith,
    all_signals-length assets,
    length-append (signals_of asset_id (generate_for_asset num c)) (all_signals assets),
  )

  signals_of-All :
      (asset_id : ℕ) (c : Context num) (a : Answer)
      → Answers (IsWarranted num c) a
      → All (λ x. IsSignal (signal_of x)) (signals_of asset_id a)
  signals_of-All asset_id c (ok none) h = tt
  signals_of-All asset_id c (ok (some s)) h = (h.valid, tt)
  signals_of-All asset_id c (err e) h = tt

  all_signals-All :
      (assets : List (ℕ × Context num)) → All (λ x. IsSignal (signal_of x)) (all_signals assets)
  all_signals-All [] = tt
  all_signals-All ((asset_id, c) ∷ assets) =
      All-append (λ x. IsSignal (signal_of x)) (signals_of asset_id (generate_for_asset num c))
        (all_signals assets)
        (signals_of-All asset_id c (generate_for_asset num c)
          (generate_for_asset-IsWarranted num c).0)
        (all_signals-All assets)

  scan_lem :
      (persist : Bool) (now : ℕ) (assets : List (ℕ × Context num)) (x : Run)
      → scan num persist now assets x ≡ ok (added persist now (all_signals assets) x)
  unfolding scan generate_for_asset
  scan_lem persist now [] x = ap ok (sym (added-nil persist now x))
  scan_lem persist now ((asset_id, c) ∷ assets) x =
      step (first_signal num (rules num) c) (generate_for_asset-IsWarranted num c).0
        (scan_lem persist now assets)
    where
      step :
          (a : Answer)
          → Answers (IsWarranted num c) a
          → ((y : Run)
              → scan num persist now assets y ≡ ok (added persist now (all_signals assets) y))
          → (a >>= λ o.
              with_signal persist now asset_id o x >>= λ next. scan num persist now assets next)
            ≡ ok (added persist now (signals_of asset_id a ++ all_signals assets) x)
      step (ok none) h later = later x
      step (ok (some s)) h later =
          ap (λ (m : Result SignalError Run). m >>= λ next. scan num persist now assets next)
            (with_signal_lem persist now asset_id s x h.valid.has_evidence)
          ∙ later (added persist now ((asset_id, s) ∷ []) x)
          ∙ ap ok (added-added persist now asset_id s (all_signals assets) x)
      step (err e) h later = absurd h

  -- A run never raises: it scans every asset, its signals are those that the assets give one by one and in
  -- their order, at most one each, all of them with evidence and a confidence of at most 1; and if it is
  -- asked to persist them, the table of signals has one more row for each, which names the asset, is active
  -- and has the time of the run, after the rows it had, and if not it has those alone.
  pub run_total :
      (persist : Bool) (now : ℕ) (assets : List (ℕ × Context num)) (table : List SignalRow)
      → (stored : List SignalRow) × (r : SignalRunResult) × (run num persist now assets table
          ≡ ok (stored, r))
        × (r.assets_scanned ≡ length assets)
        × (r.signals ≡ map signal_of (all_signals assets))
        × (length (all_signals assets) ≤ length assets)
        × (r.persisted ≡ (if persist then length (all_signals assets) else 0))
        × (stored ≡ table ++ (if persist then map (active_row now) (all_signals assets) else []))
        × All (λ x. IsSignal (signal_of x)) (all_signals assets)
  unfolding run
  run_total persist now assets table = (
    table ++ (if persist then map (active_row now) (all_signals assets) else []),
    record {
      assets_scanned = length assets;
      signals = map signal_of (all_signals assets);
      persisted = if persist then length (all_signals assets) else 0;
    },
    scan_lem persist now assets _ ∙ ground arith,
    refl,
    refl,
    all_signals-length assets,
    refl,
    refl,
    all_signals-All assets,
  )
