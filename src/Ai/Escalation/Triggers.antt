-- ===== src/Ai/Escalation/Triggers.antt =====
-- When a change escalates, and that a routine scan does not.
use trading_brain.Base.{
  ℕ, ◌+◌, ◌≡◌, refl, sym, subst, arith, Bool, true, false, not, Option, none, some, List, [], ◌∷◌,
  map, keep, ltb, if◌then◌else◌, if_ind, when_some_ind, All, All-append, length, last, first, leb,
}
use trading_brain.Quant.Floats.{Floats}
use trading_brain.Data.Prices.{Price, get_close_series}
use trading_brain.Ai.Kinds.{AiTier}
use trading_brain.Brain.Signals.Context.{Thesis}
use trading_brain.Brain.Changes.{
  ChangeType, DetectedChange, ChangeDetectionConfig, Stored, breach, price_changes,
  is_recent_earnings, earnings_changes, assessed, thesis_changes, stale_changes, days_since,
  detect_for_asset, second_last_of, change_of,
}
use trading_brain.Ai.Escalation.{
  AiTrigger, is_non_escalating, trigger_for, escalates, tier_of, threshold_of, material, evaluate,
  place, by_materiality, evaluate_all,
}

module _ (num : Floats) where
  -- A kind of change that can justify a call, and is material enough for its kind.
  abbrev pub is_material : DetectedChange num → Bool
  is_material c = elim (trigger_for c.change_type) [
    | none ↦ false
    | some kind ↦ not (num.lt c.magnitude (threshold_of num kind))
  ]

  -- A change escalates exactly if it is a release of earnings, a change of the regime or a violation of
  -- the thesis and its magnitude is not below 0.6, or 0.4 for the thesis; then it has a task and never
  -- goes to the local tier, and the high frontier is for the thesis and for contradictions only.
  pub evaluate_lem :
      (c : DetectedChange num) (has_contradictions : Bool)
      → let t = evaluate num c has_contradictions in
        (escalates t.outcome ≡ is_material c)
        × (t.materiality ≡ c.magnitude)
        × (tier_of t.outcome ≡ (
            if is_material c
            then some (
                if has_contradictions then AiTier.frontier_high else (elim c.change_type [
                  | ChangeType.thesis_violation ↦ AiTier.frontier_high
                  | _ ↦ AiTier.frontier
                ]))
            else none))
  unfolding evaluate material
  evaluate_lem c has_contradictions = ground arith

  -- A change that the deterministic layer handles alone.
  abbrev IsPlain : DetectedChange num → Type 0
  IsPlain c = is_non_escalating c.change_type ≡ true

  abbrev pub IsQuiet : AiTrigger num → Type 0
  IsQuiet t = escalates t.outcome ≡ false

  evaluate-IsQuiet : (c : DetectedChange num) → IsPlain c → IsQuiet (evaluate num c false)
  unfolding evaluate
  evaluate-IsQuiet c plain = ground (arith, plain)

  place-All :
      (P : AiTrigger num → Type 0) (t : AiTrigger num) (ts : List (AiTrigger num))
      → P t
      → All P ts
      → All P (place num t ts)
  unfolding place
  place-All P t [] h k = (h, tt)
  place-All P t (u ∷ us) h k =
      if_ind (All P) (num.lt t.materiality u.materiality) (λ _. (k.0, place-All P t us h k.1))
        (λ _. (h, k))

  evaluate_all-IsQuiet :
      (changes : List (DetectedChange num))
      → All IsPlain changes
      → All IsQuiet (evaluate_all num changes)
  unfolding evaluate_all by_materiality
  evaluate_all-IsQuiet [] h = tt
  evaluate_all-IsQuiet (c ∷ changes) h =
      place-All IsQuiet (evaluate num c false) (evaluate_all num changes) (evaluate-IsQuiet c h.0)
        (evaluate_all-IsQuiet changes h.1)

  breach-IsPlain :
      (asset_id now : ℕ) (change_type : ChangeType) (threshold : num.F) (from until : Option num.F)
      → is_non_escalating change_type ≡ true
      → All IsPlain (breach num asset_id now change_type threshold from until)
  unfolding breach
  breach-IsPlain asset_id now change_type threshold none until plain = tt
  breach-IsPlain asset_id now change_type threshold (some from) none plain = tt
  breach-IsPlain asset_id now change_type threshold (some from) (some until) plain =
      if_ind (All IsPlain) (num.le threshold (num.abs (num.sub (num.div until from) (num.whole 1))))
        (λ _. (plain, tt)) (λ _. tt)

  price_changes-IsPlain :
      (cfg : ChangeDetectionConfig num) (asset_id now : ℕ) (prices : List (Price num))
      → All IsPlain (price_changes num cfg asset_id now prices)
  unfolding price_changes
  price_changes-IsPlain cfg asset_id now prices =
      let window = cfg.large_move_window + 1 in
      let closes = get_close_series num asset_id 0 (some window) prices in
      if_ind (All IsPlain) (ltb (length closes) 2) (λ _. tt)
        (λ _.
          All-append IsPlain
            (breach num asset_id now ChangeType.price_shock cfg.price_shock_pct
              (second_last_of closes) (last closes))
            _
            (breach-IsPlain asset_id now ChangeType.price_shock cfg.price_shock_pct
              (second_last_of closes) (last closes) refl)
            (if_ind (All IsPlain) (leb window (length closes))
              (λ _.
                breach-IsPlain asset_id now ChangeType.large_move cfg.large_move_pct (first closes)
                  (last closes) refl)
              (λ _. tt)))

  stale_changes-IsPlain :
      (cfg : ChangeDetectionConfig num) (asset_id now : ℕ) (latest : Option ℕ)
      → All IsPlain (stale_changes num cfg asset_id now latest)
  unfolding stale_changes
  stale_changes-IsPlain cfg asset_id now latest =
      if_ind (All IsPlain)
        (ltb cfg.stale_research_days (days_since now latest cfg.stale_research_days))
        (λ _. (refl, tt)) (λ _. tt)

  -- Nothing happened to the asset but in its prices: no recent earnings, and an active thesis, if there is
  -- one, is neither weakened nor invalidated and was reviewed in time.
  pub record IsRoutine (cfg : ChangeDetectionConfig num) (asset_id now : ℕ) (stored : Stored num)
      : Type 0 where
    pub earnings : keep (is_recent_earnings num cfg asset_id now) stored.events ≡ []
    pub thesis :
        (t : Thesis)
        → stored.thesis ≡ some t
        → (assessed num t.current_assessment ≡ none)
          × (ltb cfg.thesis_stale_days (days_since now t.last_reviewed_at cfg.thesis_stale_days)
              ≡ false)

  thesis_changes-nil :
      (cfg : ChangeDetectionConfig num) (asset_id now : ℕ) (stored : Stored num)
      → IsRoutine cfg asset_id now stored
      → thesis_changes num cfg asset_id now stored.thesis ≡ []
  unfolding thesis_changes
  thesis_changes-nil cfg asset_id now stored h =
      when_some_ind (λ changes. changes ≡ []) stored.thesis (λ _. refl)
        (λ t found. let (sound, fresh) = h.thesis t found in ground (arith, sound, fresh))

  -- Whatever the prices of an asset do and however old its research is: if there was no recent release of
  -- earnings and no thesis of it is broken or overdue for review, then no change that is detected for it
  -- leads to a call of a language model.
  pub evaluate_all-detect_for_asset :
      (cfg : ChangeDetectionConfig num) (asset_id now : ℕ) (stored : Stored num)
      → IsRoutine cfg asset_id now stored
      → All IsQuiet (evaluate_all num (detect_for_asset num cfg asset_id now stored))
  unfolding detect_for_asset earnings_changes
  evaluate_all-detect_for_asset cfg asset_id now stored h =
      evaluate_all-IsQuiet (detect_for_asset num cfg asset_id now stored) (
        All-append IsPlain (price_changes num cfg asset_id now stored.prices) _
          (price_changes-IsPlain cfg asset_id now stored.prices)
          (All-append IsPlain (earnings_changes num cfg asset_id now stored.events) _
            (subst
              (λ events. All IsPlain (
                map (λ _. change_of num asset_id ChangeType.earnings_release (num.whole 1) now)
                  events))
              {x = []} (sym h.earnings) tt)
            (All-append IsPlain (thesis_changes num cfg asset_id now stored.thesis) _
              (subst (All IsPlain) {x = []} (sym (thesis_changes-nil cfg asset_id now stored h)) tt)
              (stale_changes-IsPlain cfg asset_id now stored.latest_document))))
