-- ===== src/Experiments/Audit.antt =====
-- What experiments/walkforward.py finds out about its data (audit_dataset), and when a result counts as
-- evidence (ExperimentConfig.__post_init__ and certifiable of experiments/config.py).
pub mod Clean
use trading_brain.Base.{
  ℕ, ◌+◌, ◌-◌, ◌/◌, Bool, true, false, not, ◌&&◌, ◌||◌, Option, none, some, List, [], ◌∷◌, ◌++◌,
  map, ltb, ◌==◌, if◌then◌else◌, keep, any, length, sort,
}
use trading_brain.Quant.Floats.{Floats}
use trading_brain.Backtest.Schemas.{Ticker, PriceBar}
use trading_brain.Experiments.Folds.{Period}
use trading_brain.Experiments.Slices.{BarsByTicker, ts_of}

-- The operator's claims about the data, which default to false.
pub record Claims : Type 0 where
  pub point_in_time_universe : Bool
  pub delisted_included : Bool
  pub corporate_actions_applied : Bool
  pub fundamentals_lagged : Bool

-- `DatasetAudit`
pub record DatasetAudit : Type 0 where
  pub claims : Claims
  pub duplicate_timestamps : ℕ
  pub non_monotonic_series : List Ticker
  pub gaps : List (Ticker × ℕ)

pub data Warning : Type 0 where
  universe delisted corporate_actions fundamentals : Warning
  duplicates : ℕ → Warning
  not_in_order : List Ticker → Warning

abbrev warn_if : Bool → Warning → List Warning
warn_if b w = if b then w ∷ [] else []

abbrev pub is_filled : List Ticker → Bool
is_filled [] = false
is_filled (t ∷ ts) = true

-- `DatasetAudit.warnings`
unfoldable pub warnings : DatasetAudit → List Warning
warnings a =
    warn_if (not a.claims.point_in_time_universe) Warning.universe
    ++ (warn_if (not a.claims.delisted_included) Warning.delisted
        ++ (warn_if (not a.claims.corporate_actions_applied) Warning.corporate_actions
            ++ (warn_if (not a.claims.fundamentals_lagged) Warning.fundamentals
                ++ (warn_if (ltb 0 a.duplicate_timestamps)
                      (Warning.duplicates a.duplicate_timestamps)
                    ++ warn_if (is_filled a.non_monotonic_series)
                        (Warning.not_in_order a.non_monotonic_series)))))

-- `is_clean`
unfoldable pub is_clean : DatasetAudit → Bool
unfolding warnings
is_clean a = elim (warnings a) [ [] ↦ true | w ∷ ws ↦ false ]

-- `xs == ys`
abbrev pub same_list : List ℕ → List ℕ → Bool
same_list [] [] = true
same_list (x ∷ xs) (y ∷ ys) = x == y && same_list xs ys
same_list _ _ = false

-- `set(stamps)`
abbrev pub to_set : List ℕ → List ℕ
to_set [] = []
to_set (t ∷ stamps) =
    let rest = to_set stamps in if any (λ (u : ℕ). u == t) rest then rest else t ∷ rest

-- The steps of more than four whole days.
abbrev pub count_gaps : List ℕ → ℕ
count_gaps [] = 0
count_gaps (t ∷ []) = 0
count_gaps (t ∷ u ∷ ts) = (if ltb 4 ((u - t) / 86_400_000_000) then 1 else 0) + count_gaps (u ∷ ts)

abbrev pub sorted : List ℕ → List ℕ
sorted = sort (λ (t : ℕ). t)

-- What one series adds to the audit.
abbrev pub with_series : Ticker → List ℕ → DatasetAudit → DatasetAudit
with_series ticker stamps a =
    let gaps = count_gaps (sorted (to_set stamps)) in
    record a {
      duplicate_timestamps = (length stamps - length (to_set stamps)) + a.duplicate_timestamps;
      non_monotonic_series =
          if same_list stamps (sorted stamps)
          then a.non_monotonic_series
          else ticker ∷ a.non_monotonic_series;
      gaps = if ltb 0 gaps then (ticker, gaps) ∷ a.gaps else a.gaps;
    }

-- `audit_dataset`
unfoldable pub audit_dataset : (num : Floats) → Claims → BarsByTicker num → DatasetAudit
audit_dataset num claims [] = record {
  claims = claims;
  duplicate_timestamps = 0;
  non_monotonic_series = [];
  gaps = [];
}
audit_dataset num claims ((ticker, bars) ∷ rest) =
    with_series ticker (map (ts_of num) bars) (audit_dataset num claims rest)

pub data AiMode : Type 0 where
  disabled local_only frontier_only gated : AiMode

-- What `ExperimentConfig` checks of itself; a model is named if one of its three names is not empty.
pub record ExperimentConfig : Type 0 where
  pub train : Option Period
  pub validation : Option Period
  pub test : Option Period
  pub ai_mode : AiMode
  pub has_model : Bool

-- `ai_enabled`
abbrev pub ai_enabled : ExperimentConfig → Bool
ai_enabled c = elim c.ai_mode [ AiMode.disabled ↦ false | _ ↦ true ]

abbrev pub periods_of : List (Option Period) → List Period
periods_of [] = []
periods_of (none ∷ ps) = periods_of ps
periods_of (some p ∷ ps) = p ∷ periods_of ps

-- `_check_period_ordering`
abbrev pub in_sequence : List Period → Bool
in_sequence [] = true
in_sequence (p ∷ []) = true
in_sequence (p ∷ q ∷ ps) = not (ltb q.start p.end_at) && in_sequence (q ∷ ps)

-- `ExperimentConfig.__post_init__`, which raises `ValueError` in both cases.
unfoldable pub config_post_init : ExperimentConfig → Option ExperimentConfig
config_post_init c =
    if not (in_sequence (periods_of (c.train ∷ c.validation ∷ c.test ∷ [])))
    then none
    else if ai_enabled c && not c.has_model
    then none
    else some c

pub data DataQuality : Type 0 where
  synthetic vendor unknown : DataQuality

-- `DataProvenance`
pub record DataProvenance : Type 0 where
  pub quality : DataQuality
  pub bar_count : ℕ

abbrev pub is_real : DataProvenance → Bool
is_real p = elim p.quality [ DataQuality.vendor ↦ true | _ ↦ false ]

-- `certifiable`
unfoldable pub certifiable : ExperimentConfig → DataProvenance → Bool
certifiable c p =
    if not (is_real p)
    then false
    else if p.bar_count == 0
    then false
    else (elim c.test [ none ↦ false | some t ↦ true ])
