-- ===== src/Experiments/Folds/Turns.antt =====
-- One turn of the loop of `rolling_folds`, and that the fuel of the loop is enough.
use trading_brain.Base.{
  ℕ, zero, suc, ◌+◌, ◌≤◌, ◌<◌, ◌≡◌, refl, subst, ap, ◌∙◌, arith, Bool, true, false, none, some,
  List, [], ◌∷◌, ltb, Result, ok, err, ◌>>=◌, Bool-cases, inl, inr, ℤ, >>=-eq-ok, if_ind, ltb→lt,
  ltb-eq-false, if◌then◌else◌,
}
use trading_brain.Experiments.Folds.{
  Fold, FoldError, RollingConfig, after, period_of, step_of, is_positive, validation_of, fold_of,
  folds_from,
}

-- The fold of its dates, written down without the checks of the constructors.
abbrev pub fold_with : RollingConfig → (index train_start train_end val_end test_end : ℕ) → Fold
fold_with c index train_start train_end val_end test_end = record {
  index = index;
  train = record { start = if c.anchored then c.period.start else train_start; end_at = train_end };
  validation =
      if is_positive c.validation_days
      then some (record { start = train_end; end_at = val_end })
      else none;
  test = record { start = val_end; end_at = test_end };
}

abbrev pub is_spent : {A : Type 0} → Result FoldError A → Bool
is_spent (ok x) = false
is_spent (err FoldError.value_error) = false
is_spent (err FoldError.leakage_error) = false
is_spent (err FoldError.overflow_error) = false
is_spent (err FoldError.out_of_fuel) = true

is_spent->>= :
    {A B : Type 0} (m : Result FoldError A) (k : A → Result FoldError B)
    → is_spent m ≡ false
    → ((x : A) → m ≡ ok x → is_spent (k x) ≡ false)
    → is_spent (m >>= k) ≡ false
is_spent->>= (ok x) k h later = later x refl
is_spent->>= (err FoldError.value_error) k h later = refl
is_spent->>= (err FoldError.leakage_error) k h later = refl
is_spent->>= (err FoldError.overflow_error) k h later = refl
is_spent->>= (err FoldError.out_of_fuel) k h later = h

pub is_spent-after : (day : ℕ) (days : ℤ) → is_spent (after day days) ≡ false
is_spent-after day (ℤ.pos n) = ground arith
is_spent-after day (ℤ.negsuc n) = ground arith

pub after-pos : (day n : ℕ) {next : ℕ} → after day (ℤ.pos n) ≡ ok next → next ≡ day + n
after-pos day n h = ground (arith, h)

pub after-negsuc : (day n : ℕ) {next : ℕ} → after day (ℤ.negsuc n) ≡ ok next → next + (n + 1) ≡ day
after-negsuc day n h = ground (arith, h)

module _ (c : RollingConfig) where
  pub is_spent-fold_of :
      (index train_start train_end val_end test_end : ℕ)
      → is_spent (fold_of c index train_start train_end val_end test_end) ≡ false
  unfolding fold_of period_of validation_of
  is_spent-fold_of index train_start train_end val_end test_end = ground arith

  -- A fold that is built is as described, and its test window does not begin before its train window ends.
  pub fold_of-ok :
      (index train_start train_end val_end test_end : ℕ) {f : Fold}
      → fold_of c index train_start train_end val_end test_end ≡ ok f
      → (train_end ≤ val_end) × (f ≡ fold_with c index train_start train_end val_end test_end)
  unfolding fold_of period_of validation_of
  fold_of-ok index train_start train_end val_end test_end {f} h =
      (ground (arith, h), ground (arith, h))

  -- What a turn that returns has done: it has ended the loop, or added a fold.
  abbrev pub IsTurn : (fuel index train_start val_end : ℕ) → List Fold → Type 0
  IsTurn fuel index train_start val_end [] = c.period.end_at < val_end + c.test_days
  IsTurn fuel index train_start val_end (f ∷ folds) =
      (val_end + c.test_days ≤ c.period.end_at)
      × (train_start + c.train_days ≤ val_end)
      × (f
          ≡ fold_with c index train_start (train_start + c.train_days) val_end
              (val_end + c.test_days))
      × (next : ℕ) × (after train_start (step_of c) ≡ ok next)
      × (folds_from c fuel (index + 1) next ≡ ok folds)

  pub folds_from-ok :
      (fuel index train_start : ℕ) (folds : List Fold)
      → folds_from c (suc fuel) index train_start ≡ ok folds
      → (val_end : ℕ) × (after (train_start + c.train_days) c.validation_days ≡ ok val_end)
        × IsTurn fuel index train_start val_end folds
  unfolding folds_from
  folds_from-ok fuel index train_start folds returned =
      let (train_end, e1, r1) = >>=-eq-ok (after train_start (ℤ.pos c.train_days)) _ returned in
      let (val_end, e2, r2) = >>=-eq-ok (after train_end c.validation_days) _ r1 in
      let (test_end, e3, r3) = >>=-eq-ok (after val_end (ℤ.pos c.test_days)) _ r2 in
      let train_eq : train_end ≡ train_start + c.train_days = after-pos train_start _ e1 in
      let test_eq : test_end ≡ val_end + c.test_days = after-pos val_end _ e3 in
      (
        val_end,
        subst (λ d. after d c.validation_days ≡ ok val_end) train_eq e2,
        elim (Bool-cases (ltb c.period.end_at test_end)) [
          | inl over ↦
              subst (IsTurn fuel index train_start val_end) {x = []} (ground (arith, over, r3))
                (omega (arith, ltb→lt _ _ over, test_eq))
          | inr fits ↦
              let (f, made, r4) =
                >>=-eq-ok (fold_of c index train_start train_end val_end test_end) _
                  (rw fits at r3) in
              let (next, stepped, r5) = >>=-eq-ok (after train_start (step_of c)) _ r4 in
              let (rest, later, r6) = >>=-eq-ok (folds_from c fuel (index + 1) next) _ r5 in
              let (le, described) = fold_of-ok index train_start train_end val_end test_end made in
              subst (IsTurn fuel index train_start val_end) {x = f ∷ rest} (ground (arith, r6)) (
                omega (arith, ltb-eq-false _ _ fits, test_eq),
                omega (arith, le, train_eq),
                described
                    ∙ ap (λ d. fold_with c index train_start d val_end test_end) train_eq
                    ∙ ap (fold_with c index train_start (train_start + c.train_days) val_end)
                        test_eq,
                next,
                stepped,
                later,
              )
        ],
      )

  -- A turn does not spend the fuel, if those after a fold do not.
  is_spent-folds_from :
      (fuel index train_start : ℕ)
      → ((next val_end : ℕ)
          → train_start + c.train_days ≤ val_end
          → val_end + c.test_days ≤ c.period.end_at
          → after train_start (step_of c) ≡ ok next
          → is_spent (folds_from c fuel (index + 1) next) ≡ false)
      → is_spent (folds_from c (suc fuel) index train_start) ≡ false
  unfolding folds_from
  is_spent-folds_from fuel index train_start later =
      is_spent->>= (after train_start (ℤ.pos c.train_days)) _
        (is_spent-after train_start (ℤ.pos c.train_days))
        (λ train_end e1.
          is_spent->>= (after train_end c.validation_days) _
            (is_spent-after train_end c.validation_days)
            (λ val_end e2.
              is_spent->>= (after val_end (ℤ.pos c.test_days)) _
                (is_spent-after val_end (ℤ.pos c.test_days))
                (λ test_end e3.
                  if_ind (λ (m : Result FoldError (List Fold)). is_spent m ≡ false)
                    (ltb c.period.end_at test_end) (λ _. refl)
                    (λ fits.
                      is_spent->>= (fold_of c index train_start train_end val_end test_end) _
                        (is_spent-fold_of index train_start train_end val_end test_end)
                        (λ f made.
                          is_spent->>= (after train_start (step_of c)) _
                            (is_spent-after train_start (step_of c))
                            (λ next stepped.
                              is_spent->>= (folds_from c fuel (index + 1) next) _
                                (later next val_end
                                  (omega (
                                    arith,
                                    (fold_of-ok index train_start train_end val_end test_end
                                        made).0,
                                    after-pos train_start _ e1,
                                  ))
                                  (omega (arith, ltb-eq-false _ _ fits, after-pos val_end _ e3))
                                  stepped)
                                (λ folds _. refl)))))))

  -- Steps forward go past the end of the period, one day a turn at least.
  pub is_spent-forward :
      (k : ℕ)
      → step_of c ≡ ℤ.pos k
      → 1 ≤ k
      → 1 ≤ c.train_days
      → 1 ≤ c.test_days
      → (fuel index train_start : ℕ) → 0 < fuel
      → c.period.end_at < train_start + fuel
      → is_spent (folds_from c fuel index train_start) ≡ false
  is_spent-forward k step far has_train has_test zero index train_start some_fuel enough =
      absurd (omega arith)
  is_spent-forward k step far has_train has_test (suc fuel) index train_start some_fuel enough =
      is_spent-folds_from fuel index train_start (λ next val_end from fits stepped.
        let moved : next ≡ train_start + k =
          after-pos train_start k (subst (λ d. after train_start d ≡ ok next) step stepped) in
        is_spent-forward k step far has_train has_test fuel (index + 1) next (omega arith)
          (omega (arith, moved)))

  -- Steps back go past the first date that there is.
  pub is_spent-back :
      (k : ℕ)
      → step_of c ≡ ℤ.negsuc k
      → (fuel index train_start : ℕ) → train_start < fuel
      → is_spent (folds_from c fuel index train_start) ≡ false
  is_spent-back k step zero index train_start enough = absurd (omega arith)
  is_spent-back k step (suc fuel) index train_start enough =
      is_spent-folds_from fuel index train_start (λ next val_end from fits stepped.
        let moved : next + (k + 1) ≡ train_start =
          after-negsuc train_start k (subst (λ d. after train_start d ≡ ok next) step stepped) in
        is_spent-back k step fuel (index + 1) next (omega (arith, moved)))
