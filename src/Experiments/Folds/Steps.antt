-- ===== src/Experiments/Folds/Steps.antt =====
-- What the loop of `rolling_folds` returns, for steps forward and for steps back.
use trading_brain.Base.{
  ℕ, zero, suc, ◌+◌, ◌≤◌, ◌<◌, ◌≡◌, ◌⊎◌, refl, sym, ◌∙◌, ap, subst, arith, List, [], ◌∷◌, ltb, ok,
  Bool-cases, inl, inr, ltb-eq-false, ℤ, Option-cases,
}
use trading_brain.Experiments.Folds.{
  Fold, RollingConfig, max_day, after, period_of, step_of, validation_of, fold_of, folds_from,
}
use trading_brain.Experiments.Folds.Turns.{fold_with, folds_from-ok, after-pos, after-negsuc}

-- A number of days, where a negative one counts as 0.
abbrev pub days_of : ℤ → ℕ
days_of (ℤ.pos n) = n
days_of (ℤ.negsuc n) = 0

-- The days from the beginning of a train window to the end of its test window.
abbrev pub span : RollingConfig → ℕ
span c = c.train_days + days_of c.validation_days + c.test_days

-- The fold whose sliding train window begins at `train_start`.
abbrev pub fold_at : RollingConfig → ℕ → ℕ → Fold
fold_at c index train_start =
    let train_end = train_start + c.train_days in
    let val_end = train_end + days_of c.validation_days in
    fold_with c index train_start train_end val_end (val_end + c.test_days)

-- The folds from a number and a day on: one for every step, as long as they fit into the period.
abbrev pub IsRolled : RollingConfig → ℕ → ℕ → List Fold → Type 0
IsRolled c index train_start [] = c.period.end_at < train_start + span c
IsRolled c index train_start (f ∷ folds) =
    (f ≡ fold_at c index train_start)
    × (train_start + span c ≤ c.period.end_at)
    × IsRolled c (index + 1) (train_start + days_of (step_of c)) folds

pub ℤ-cases : (x : ℤ) → ((n : ℕ) × (x ≡ ℤ.pos n)) ⊎ ((n : ℕ) × (x ≡ ℤ.negsuc n))
ℤ-cases (ℤ.pos n) = inl (n, refl)
ℤ-cases (ℤ.negsuc n) = inr (n, refl)

pub step_of-pos : (c : RollingConfig) (k : ℕ) → 1 ≤ c.test_days → step_of c ≡ ℤ.pos k → 1 ≤ k
step_of-pos c k has_test step = elim (Option-cases c.step_days) [
  | inl unset ↦ ground (arith, unset, step)
  | inr (x, chosen) ↦ elim (ℤ-cases x) [
    | inl (n, positive) ↦ ground (arith, chosen, positive, step)
    | inr (n, negative) ↦ ground (arith, chosen, negative, step)
  ]
]

module _ (c : RollingConfig) (has_train : 1 ≤ c.train_days) (has_test : 1 ≤ c.test_days) where
  -- With a negative number of days to validate, no fold is ever added.
  pub back_validation :
      (n fuel index train_start : ℕ) (folds : List Fold)
      → c.validation_days ≡ ℤ.negsuc n
      → folds_from c (suc fuel) index train_start ≡ ok folds
      → folds ≡ []
  back_validation n fuel index train_start [] negative returned = refl
  back_validation n fuel index train_start (f ∷ folds) negative returned =
      let (val_end, e, turn) = folds_from-ok c fuel index train_start (f ∷ folds) returned in
      absurd (
        omega (
          arith,
          turn.1,
          after-negsuc (train_start + c.train_days) n
              (subst (λ d. after (train_start + c.train_days) d ≡ ok val_end) negative e),
        ))

  module _ (v : ℕ) (validates : c.validation_days ≡ ℤ.pos v) where
    pub val_end-eq :
        (train_start : ℕ) {val_end : ℕ}
        → after (train_start + c.train_days) c.validation_days ≡ ok val_end
        → val_end ≡ train_start + c.train_days + v
    val_end-eq train_start {val_end} e =
        after-pos (train_start + c.train_days) v
          (subst (λ d. after (train_start + c.train_days) d ≡ ok val_end) validates e)

    -- Steps back from a fold that fits never end with folds.
    pub back_step :
        (k fuel index train_start : ℕ) (folds : List Fold)
        → step_of c ≡ ℤ.negsuc k
        → train_start + c.train_days + v + c.test_days ≤ c.period.end_at
        → folds_from c fuel index train_start ≡ ok folds
        → ⊥
    unfolding folds_from
    back_step k zero index train_start folds negative fits returned = cc
    back_step k (suc fuel) index train_start [] negative fits returned =
        let (val_end, e, turn) = folds_from-ok c fuel index train_start [] returned in
        omega (arith, turn, val_end-eq train_start e)
    back_step k (suc fuel) index train_start (f ∷ folds) negative fits returned =
        let (val_end, e, turn) = folds_from-ok c fuel index train_start (f ∷ folds) returned in
        let moved : turn.3 + (k + 1) ≡ train_start =
          after-negsuc train_start k
            (subst (λ d. after train_start d ≡ ok turn.3) negative turn.4) in
        back_step k fuel (index + 1) turn.3 folds negative (omega (arith, moved)) turn.5

    pub folds_from-IsRolled :
        (k fuel index train_start : ℕ) (folds : List Fold)
        → step_of c ≡ ℤ.pos k
        → folds_from c fuel index train_start ≡ ok folds
        → IsRolled c index train_start folds
    unfolding folds_from
    folds_from-IsRolled k zero index train_start folds forward returned = cc
    folds_from-IsRolled k (suc fuel) index train_start [] forward returned =
        let (val_end, e, turn) = folds_from-ok c fuel index train_start [] returned in
        rw validates (omega (arith, turn, val_end-eq train_start e))
    folds_from-IsRolled k (suc fuel) index train_start (f ∷ folds) forward returned =
        let (val_end, e, turn) = folds_from-ok c fuel index train_start (f ∷ folds) returned in
        let ends : val_end ≡ train_start + c.train_days + days_of c.validation_days =
          rw validates (val_end-eq train_start e) in
        let next_eq : turn.3 ≡ train_start + days_of (step_of c) =
          rw forward (
            after-pos train_start k
              (subst (λ d. after train_start d ≡ ok turn.3) forward turn.4)) in
        (
          turn.2
              ∙ ap
                  (λ d.
                    fold_with c index train_start (train_start + c.train_days) d (d + c.test_days))
                  ends,
          omega (arith, turn.0, ends),
          subst (λ s. IsRolled c (index + 1) s folds) next_eq
              (folds_from-IsRolled k fuel (index + 1) turn.3 folds forward turn.5),
        )

    after-ok : (day n : ℕ) → day + n ≤ max_day → after day (ℤ.pos n) ≡ ok (day + n)
    after-ok day n le = ground (arith, le)

    -- No constructor refuses a fold.
    fold_of_lem :
        (index train_start : ℕ)
        → c.period.start ≤ train_start
        → let train_end = train_start + c.train_days in
          fold_of c index train_start train_end (train_end + v) (train_end + v + c.test_days)
          ≡ ok (
              fold_with c index train_start train_end (train_end + v) (train_end + v + c.test_days))
    unfolding fold_of period_of validation_of
    fold_of_lem index train_start h = ground (arith, validates)

    module _ (k : ℕ) (forward : step_of c ≡ ℤ.pos k) (far : 1 ≤ k)
        (in_range : c.period.end_at + span c + k ≤ max_day) where
      pub folds_from-total :
          (fuel index train_start : ℕ)
          → c.period.start ≤ train_start
          → train_start ≤ c.period.end_at + k
          → 0 < fuel
          → c.period.end_at < train_start + fuel
          → (folds : List Fold) × (folds_from c fuel index train_start ≡ ok folds)
      unfolding folds_from
      folds_from-total zero index train_start from near some_fuel enough = absurd (omega arith)
      folds_from-total (suc fuel) index train_start from near some_fuel enough =
          let room : c.period.end_at + (c.train_days + v + c.test_days) + k ≤ max_day =
            rw validates at in_range in
          let e1 = after-ok train_start c.train_days (omega (arith, room)) in
          let e2 : after (train_start + c.train_days) c.validation_days
              ≡ ok (train_start + c.train_days + v) =
            subst (λ d. after (train_start + c.train_days) d ≡ ok (train_start + c.train_days + v))
              (sym validates) (after-ok (train_start + c.train_days) v (omega (arith, room))) in
          let e3 = after-ok (train_start + c.train_days + v) c.test_days (omega (arith, room)) in
          elim (Bool-cases (ltb c.period.end_at (train_start + c.train_days + v + c.test_days))) [
            | inl over ↦ ([], rw (e1, e2, e3, over) refl)
            | inr fits ↦
                let le : train_start + c.train_days + v + c.test_days ≤ c.period.end_at =
                  ltb-eq-false _ _ fits in
                let e4 : after train_start (step_of c) ≡ ok (train_start + k) =
                  subst (λ d. after train_start d ≡ ok (train_start + k)) (sym forward)
                    (after-ok train_start k (omega (arith, room))) in
                let (folds, later) =
                  folds_from-total fuel (index + 1) (train_start + k) (omega arith) (omega arith)
                    (omega arith) (omega arith) in
                (
                  fold_with c index train_start (train_start + c.train_days)
                        (train_start + c.train_days + v)
                        (train_start + c.train_days + v + c.test_days)
                      ∷ folds,
                  rw (e1, e2, e3, fits, fold_of_lem index train_start from, e4, later) refl,
                )
          ]
