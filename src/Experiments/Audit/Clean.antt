-- ===== src/Experiments/Audit/Clean.antt =====
-- What a clean audit and a certifiable run rule out.
use trading_brain.Base.{
  ℕ, ◌-◌, ◌≤◌, ◌≡◌, ◌≢◌, refl, sym, subst, ap, ◌∙◌, arith, true, false, Option, none, some, List,
  [], ◌∷◌, ◌==◌, any, length, All, Option-cases, inl, inr, map, IsSorted, IsDistinct, IsIncreasing,
  sort-IsSorted, IsSorted-IsIncreasing,
}
use trading_brain.Quant.Floats.{Floats}
use trading_brain.Backtest.Schemas.{Ticker, PriceBar}
use trading_brain.Experiments.Folds.{Period}
use trading_brain.Experiments.Slices.{BarsByTicker, ts_of}
use trading_brain.Experiments.Audit.{
  Claims, DatasetAudit, warnings, is_clean, is_filled, same_list, to_set, sorted, audit_dataset,
  ExperimentConfig, DataProvenance, in_sequence, periods_of, is_real, ai_enabled, config_post_init,
  certifiable,
}

abbrev time : ℕ → ℕ
time t = t

same_list-eq : (xs ys : List ℕ) → same_list xs ys ≡ true → xs ≡ ys
same_list-eq [] [] h = refl
same_list-eq [] (y ∷ ys) h = ground (arith, h)
same_list-eq (x ∷ xs) [] h = ground (arith, h)
same_list-eq (x ∷ xs) (y ∷ ys) h = ground (arith, h, same_list-eq xs ys (ground (arith, h)))

length-to_set : (xs : List ℕ) → length (to_set xs) ≤ length xs
length-to_set [] = omega arith
length-to_set (x ∷ xs) = ground (arith, length-to_set xs)

-- A set that is as long as the list is the list.
to_set-id : (xs : List ℕ) → length (to_set xs) ≡ length xs → to_set xs ≡ xs
to_set-id [] h = refl
to_set-id (x ∷ xs) h =
    let short = length-to_set xs in
    ground (arith, h, short, to_set-id xs (ground (arith, h, short)))

All-ne : (x : ℕ) (xs : List ℕ) → any (λ (u : ℕ). u == x) xs ≡ false → All (λ y. x ≢ y) xs
All-ne x [] h = tt
All-ne x (y ∷ ys) h = (ground (arith, h), All-ne x ys (ground (arith, h)))

to_set-IsDistinct : (xs : List ℕ) → length (to_set xs) ≡ length xs → IsDistinct time xs
to_set-IsDistinct [] h = tt
to_set-IsDistinct (x ∷ xs) h =
    let short = length-to_set xs in
    let same : length (to_set xs) ≡ length xs = ground (arith, h, short) in
    let fresh : any (λ (u : ℕ). u == x) (to_set xs) ≡ false = ground (arith, h, short) in
    (
      All-ne x xs (subst (λ ys. any (λ (u : ℕ). u == x) ys ≡ false) (to_set-id xs same) fresh),
      to_set-IsDistinct xs same,
    )

-- A list that is its own sorting, and whose set is no shorter, increases.
same_list-IsIncreasing :
    (xs : List ℕ)
    → same_list xs (sorted xs) ≡ true
    → length xs - length (to_set xs) ≡ 0
    → IsIncreasing time xs
same_list-IsIncreasing xs ordered no_duplicate =
    IsSorted-IsIncreasing time xs
      (subst (IsSorted time) (sym (same_list-eq xs (sorted xs) ordered)) (sort-IsSorted time xs))
      (to_set-IsDistinct xs (omega (arith, no_duplicate, length-to_set xs)))

-- What a clean audit says of its fields.
is_clean-fields :
    (a : DatasetAudit)
    → is_clean a ≡ true
    → (a.duplicate_timestamps ≡ 0)
      × (is_filled a.non_monotonic_series ≡ false)
      × (a.claims.point_in_time_universe ≡ true)
      × (a.claims.delisted_included ≡ true)
      × (a.claims.corporate_actions_applied ≡ true)
      × (a.claims.fundamentals_lagged ≡ true)
unfolding is_clean warnings
is_clean-fields a h = ground (arith, h)

module _ (num : Floats) where
  -- The times of the series strictly increase.
  abbrev pub IsChronicle : Ticker × List (PriceBar num) → Type 0
  IsChronicle s = IsIncreasing time (map (ts_of num) s.1)

  audit_dataset-series :
      (claims : Claims) (bars : BarsByTicker num)
      → (audit_dataset num claims bars).duplicate_timestamps ≡ 0
      → is_filled (audit_dataset num claims bars).non_monotonic_series ≡ false
      → All IsChronicle bars
  unfolding audit_dataset
  audit_dataset-series claims [] none_twice in_order = tt
  audit_dataset-series claims ((ticker, bars) ∷ rest) none_twice in_order =
      let stamps = map (ts_of num) bars in
      (
        same_list-IsIncreasing stamps (ground (arith, in_order)) (omega (arith, none_twice)),
        audit_dataset-series claims rest (omega (arith, none_twice)) (ground (arith, in_order)),
      )

  audit_dataset-claims :
      (claims : Claims) (bars : BarsByTicker num) → (audit_dataset num claims bars).claims ≡ claims
  unfolding audit_dataset
  audit_dataset-claims claims [] = refl
  audit_dataset-claims claims ((ticker, bars) ∷ rest) = audit_dataset-claims claims rest

  -- An audit is clean only if the four claims were made, that the universe is as of its time, that delisted
  -- names are in it, that corporate actions are applied and that fundamentals are lagged, and if in every
  -- series each bar is later than the one before it, so that none is out of order or there twice.
  pub is_clean-audit_dataset :
      (claims : Claims) (bars : BarsByTicker num)
      → is_clean (audit_dataset num claims bars) ≡ true
      → (claims.point_in_time_universe ≡ true)
        × (claims.delisted_included ≡ true)
        × (claims.corporate_actions_applied ≡ true)
        × (claims.fundamentals_lagged ≡ true)
        × All IsChronicle bars
  is_clean-audit_dataset claims bars clean =
      let audit = audit_dataset num claims bars in
      let (none_twice, in_order, universe, delisted, actions, lagged) =
        is_clean-fields audit clean in
      let same = audit_dataset-claims claims bars in
      (
        ap (λ (k : Claims). k.point_in_time_universe) (sym same) ∙ universe,
        ap (λ (k : Claims). k.delisted_included) (sym same) ∙ delisted,
        ap (λ (k : Claims). k.corporate_actions_applied) (sym same) ∙ actions,
        ap (λ (k : Claims). k.fundamentals_lagged) (sym same) ∙ lagged,
        audit_dataset-series claims bars none_twice in_order,
      )

-- Periods in sequence end before the test begins.
in_sequence-ends :
    (train validation : Option Period) (t : Period)
    → in_sequence (periods_of (train ∷ validation ∷ some t ∷ [])) ≡ true
    → ((v : Period) → validation ≡ some v → v.end_at ≤ t.start)
      × ((r : Period) → train ≡ some r → validation ≡ none → r.end_at ≤ t.start)
in_sequence-ends none none t h = (λ v e. ground (arith, e), λ r e _. ground (arith, e))
in_sequence-ends (some r) none t h = (λ v e. ground (arith, e), λ q e _. ground (arith, e, h))
in_sequence-ends none (some v) t h = (λ w e. ground (arith, e, h), λ r e _. ground (arith, e))
in_sequence-ends (some r) (some v) t h = (λ w e. ground (arith, e, h), λ q _ e. ground (arith, e))

-- A run that may be certified, of a configuration that its constructor accepts, ran on bars of a vendor,
-- names its model if it uses one, and has a period to test in: the validation period, or the train period if
-- there is none to validate, ends before it starts.
certifiable-config_post_init :
    (c : ExperimentConfig) (p : DataProvenance)
    → config_post_init c ≡ some c
    → certifiable c p ≡ true
    → (is_real p ≡ true)
      × (1 ≤ p.bar_count)
      × (ai_enabled c ≡ true → c.has_model ≡ true)
      × (t : Period) × (c.test ≡ some t)
      × ((v : Period) → c.validation ≡ some v → v.end_at ≤ t.start)
      × ((r : Period) → c.train ≡ some r → c.validation ≡ none → r.end_at ≤ t.start)
unfolding config_post_init certifiable
certifiable-config_post_init c p accepted certified = elim (Option-cases c.test) [
  | inl missing ↦ ground (arith, missing, certified)
  | inr (t, given) ↦
      let ordered : in_sequence (periods_of (c.train ∷ c.validation ∷ some t ∷ [])) ≡ true =
        subst (λ o. in_sequence (periods_of (c.train ∷ c.validation ∷ o ∷ [])) ≡ true) given
          (ground (arith, accepted)) in
      let (after_validation, after_train) = in_sequence-ends c.train c.validation t ordered in
      (
        ground (arith, certified),
        ground (arith, certified),
        λ uses. ground (arith, accepted, uses),
        t,
        given,
        after_validation,
        after_train,
      )
]
