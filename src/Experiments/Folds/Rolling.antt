-- ===== src/Experiments/Folds/Rolling.antt =====
-- The folds that `rolling_folds` returns.
use trading_brain.Base.{
  ℕ, suc, ◌+◌, ◌≤◌, ◌<◌, ◌≡◌, ◌≢◌, ◌⊎◌, refl, sym, ◌∙◌, ap, subst, arith, true, ◌||◌, some, List,
  [], ◌∷◌, ltb, Result, ok, err, ◌>>=◌, All, Bool-cases, inl, inr, ltb-eq-false, ltb→lt, ℤ,
  is_negative, false,
}
use trading_brain.Experiments.Folds.{
  Period, Fold, FoldError, RollingConfig, max_day, step_of, folds_from, some_folds, rolling_folds,
}
use trading_brain.Experiments.Folds.Turns.{folds_from-ok, is_spent, is_spent-forward, is_spent-back}
use trading_brain.Experiments.Folds.Steps.{
  days_of, span, IsRolled, ℤ-cases, step_of-pos, back_validation, val_end-eq, back_step,
  folds_from-IsRolled, folds_from-total, fold_at,
}

Result-cases : {E A : Type 0} (m : Result E A) → ((x : A) × (m ≡ ok x)) ⊎ ((e : E) × (m ≡ err e))
Result-cases (ok x) = inl (x, refl)
Result-cases (err e) = inr (e, refl)

-- A loop that ends, and not with folds, makes the call raise an error.
fails :
    (m : Result FoldError (List Fold))
    → is_spent m ≡ false
    → ((folds : List Fold) → m ≡ ok folds → folds ≡ [])
    → (e : FoldError) × ((m >>= some_folds) ≡ err e) × (e ≢ FoldError.out_of_fuel)
fails (ok []) ends empty = (FoldError.value_error, refl, λ h. cc)
fails (ok (f ∷ folds)) ends empty = absurd (ground (arith, empty (f ∷ folds) refl))
fails (err e) ends empty = (e, refl, λ h. ground (arith, ends, h))

-- A negative number of days, or dates that would be later than the last that there is.
abbrev pub IsOutOfRange : RollingConfig → Type 0
IsOutOfRange c =
    (is_negative c.validation_days ≡ true)
    ⊎ ((is_negative (step_of c) ≡ true)
        ⊎ (max_day < c.period.end_at + span c + days_of (step_of c)))

-- What `rolling_folds` does with its arguments.
pub data IsOutcome (c : RollingConfig) (m : Result FoldError (List Fold)) : Type 0 where
  refused : (c.train_days < 1) ⊎ (c.test_days < 1) → m ≡ err FoldError.value_error → IsOutcome c m
  failed : IsOutOfRange c → (e : FoldError) → m ≡ err e → e ≢ FoldError.out_of_fuel → IsOutcome c m
  as_described :
      is_negative c.validation_days ≡ false
      → is_negative (step_of c) ≡ false
      → (folds : List Fold) → IsRolled c 0 c.period.start folds
      → m ≡ some_folds folds
      → IsOutcome c m

accepted_lem :
    (c : RollingConfig)
    → (ltb c.train_days 1 || ltb c.test_days 1) ≡ false
    → rolling_folds c ≡ (folds_from c (suc (c.period.end_at + 1)) 0 c.period.start >>= some_folds)
unfolding rolling_folds
accepted_lem c accepted = rw accepted refl

module _ (c : RollingConfig) (has_train : 1 ≤ c.train_days) (has_test : 1 ≤ c.test_days)
    (period : c.period.start < c.period.end_at) where
  abbrev loop : Result FoldError (List Fold)
  loop = folds_from c (suc (c.period.end_at + 1)) 0 c.period.start

  is_spent-loop : is_spent loop ≡ false
  is_spent-loop = elim (ℤ-cases (step_of c)) [
    | inl (k, forward) ↦
        is_spent-forward c k forward (step_of-pos c k has_test forward) has_train has_test
          (suc (c.period.end_at + 1)) 0 c.period.start (omega arith) (omega arith)
    | inr (k, back) ↦
        is_spent-back c k back (suc (c.period.end_at + 1)) 0 c.period.start (omega arith)
  ]

  loop-back_step :
      (v k : ℕ) (folds : List Fold)
      → c.validation_days ≡ ℤ.pos v
      → step_of c ≡ ℤ.negsuc k
      → loop ≡ ok folds
      → folds ≡ []
  loop-back_step v k [] validates back returned = refl
  loop-back_step v k (f ∷ folds) validates back returned =
      let (val_end, e, turn) =
        folds_from-ok c (c.period.end_at + 1) 0 c.period.start (f ∷ folds) returned in
      absurd (
        back_step c has_train has_test v validates k (suc (c.period.end_at + 1)) 0 c.period.start
          (f ∷ folds) back
          (omega (arith, turn.0, val_end-eq c has_train has_test v validates c.period.start e))
          returned)

  loop-IsOutcome : IsOutcome c (loop >>= some_folds)
  loop-IsOutcome = elim (ℤ-cases c.validation_days) [
    | inr (n, negative) ↦
        let (e, raised, ends) = fails loop is_spent-loop (λ folds.
          back_validation c has_train has_test n (c.period.end_at + 1) 0 c.period.start folds
            negative) in
        IsOutcome.failed (inl (ap is_negative negative)) e raised ends
    | inl (v, validates) ↦ elim (ℤ-cases (step_of c)) [
      | inr (k, back) ↦
          let (e, raised, ends) =
            fails loop is_spent-loop (λ folds. loop-back_step v k folds validates back) in
          IsOutcome.failed (inr (inl (ap is_negative back))) e raised ends
      | inl (k, forward) ↦ elim (Result-cases loop) [
        | inl (folds, returned) ↦
            IsOutcome.as_described (ap is_negative validates) (ap is_negative forward) folds
              (folds_from-IsRolled c has_train has_test v validates k (suc (c.period.end_at + 1)) 0
                c.period.start folds forward returned)
              (ap (λ (m : Result FoldError (List Fold)). m >>= some_folds) returned)
        | inr (e, raised) ↦
            IsOutcome.failed
              (elim (Bool-cases (ltb max_day (c.period.end_at + span c + days_of (step_of c)))) [
                | inl beyond ↦ inr (inr (ltb→lt _ _ beyond))
                | inr in_range ↦
                    let (folds, returned) =
                      folds_from-total c has_train has_test v validates k forward
                        (step_of-pos c k has_test forward)
                        (omega (arith, ltb-eq-false _ _ in_range, ap days_of forward))
                        (suc (c.period.end_at + 1)) 0 c.period.start (omega arith) (omega arith)
                        (omega arith) (omega arith) in
                    absurd (ground (arith, raised, returned))
              ])
              e (ap (λ (m : Result FoldError (List Fold)). m >>= some_folds) raised)
              (λ h. ground (arith, is_spent-loop, raised, h))
      ]
    ]
  ]

-- For a period that is not empty, and whatever the numbers of days are, the call ends, in one of three
-- ways. It is refused, where there is no day to train or none to test. It raises an error, which is only
-- where the days to validate or those of a step are negative, or where the end of the period with the
-- days of a fold and of a step passes 9999-12-31. Or else, which is only where neither is negative, the
-- folds are those that the description gives, one for every step as long as they fit, and if there is
-- none the call is refused.
pub rolling_folds-IsRolled :
    (c : RollingConfig) → c.period.start < c.period.end_at → IsOutcome c (rolling_folds c)
unfolding rolling_folds
rolling_folds-IsRolled c period = elim (Bool-cases (ltb c.train_days 1 || ltb c.test_days 1)) [
  | inl none_given ↦ IsOutcome.refused (ground (arith, none_given)) (rw none_given refl)
  | inr accepted ↦
      subst (IsOutcome c) (sym (accepted_lem c accepted))
        (loop-IsOutcome c (ground (arith, accepted)) (ground (arith, accepted)) period)
]

some_folds-ok : (made folds : List Fold) → some_folds made ≡ ok folds → made ≡ folds
some_folds-ok [] folds e = cc
some_folds-ok (f ∷ rest) folds e = ground (arith, e)

-- The converse, for folds that were returned.
pub rolling_folds-ok :
    (c : RollingConfig) (folds : List Fold)
    → c.period.start < c.period.end_at
    → rolling_folds c ≡ ok folds
    → (1 ≤ c.train_days) × (1 ≤ c.test_days) × IsRolled c 0 c.period.start folds
unfolding rolling_folds
rolling_folds-ok c folds period returned =
    elim (Bool-cases (ltb c.train_days 1 || ltb c.test_days 1)) [
      | inl none_given ↦ cc (rw none_given at returned)
      | inr accepted ↦ (
        ground (arith, accepted),
        ground (arith, accepted),
        of_outcome (rolling_folds-IsRolled c period) (ground (arith, accepted)),
      )
    ]
  where
    of_outcome :
        IsOutcome c (rolling_folds c)
        → (1 ≤ c.train_days) × (1 ≤ c.test_days)
        → IsRolled c 0 c.period.start folds
    of_outcome (IsOutcome.refused why e) some_days = cc
    of_outcome (IsOutcome.failed why x e ends) some_days = cc
    of_outcome (IsOutcome.as_described a b made rolled e) some_days =
        subst (IsRolled c 0 c.period.start) (some_folds-ok made folds (sym e ∙ returned)) rolled

-- The test window of a fold comes after its train window and after its validation window, which meet,
-- and the train window is never empty.
pub record IsChronological (f : Fold) : Type 0 where
  pub train : f.train.start < f.train.end_at
  pub before_test : f.train.end_at ≤ f.test.start
  pub test : f.test.start < f.test.end_at
  pub validation :
      (v : Period)
      → f.validation ≡ some v
      → (v.start ≡ f.train.end_at) × (v.start < v.end_at) × (v.end_at ≡ f.test.start)

abbrev pub IsApart : List Fold → Type 0
IsApart [] = Unit
IsApart (f ∷ folds) = All (λ (g : Fold). f.test.end_at ≤ g.test.start) folds × IsApart folds

module _ (c : RollingConfig) (has_train : 1 ≤ c.train_days) (has_test : 1 ≤ c.test_days) where
  fold_at-IsChronological :
      (index train_start : ℕ)
      → c.period.start ≤ train_start
      → IsChronological (fold_at c index train_start)
  fold_at-IsChronological index train_start from = record {
    train = ground arith;
    before_test = omega arith;
    test = omega arith;
    validation = λ v e. ground (arith, e);
  }

  IsRolled-IsChronological :
      (folds : List Fold) (index train_start : ℕ)
      → c.period.start ≤ train_start
      → IsRolled c index train_start folds
      → All IsChronological folds
  IsRolled-IsChronological [] index train_start from h = tt
  IsRolled-IsChronological (f ∷ folds) index train_start from h = (
    subst IsChronological (sym h.0) (fold_at-IsChronological index train_start from),
    IsRolled-IsChronological folds (index + 1) (train_start + days_of (step_of c)) (omega arith)
        h.2,
  )

  IsRolled-later :
      (folds : List Fold) (index train_start day : ℕ)
      → day ≤ train_start + c.train_days + days_of c.validation_days
      → IsRolled c index train_start folds
      → All (λ (g : Fold). day ≤ g.test.start) folds
  IsRolled-later [] index train_start day le h = tt
  IsRolled-later (f ∷ folds) index train_start day le h = (
    subst (λ (g : Fold). day ≤ g.test.start) (sym h.0) le,
    IsRolled-later folds (index + 1) (train_start + days_of (step_of c)) day (omega arith) h.2,
  )

  IsRolled-IsApart :
      (folds : List Fold) (index train_start : ℕ)
      → c.test_days ≤ days_of (step_of c)
      → IsRolled c index train_start folds
      → IsApart folds
  IsRolled-IsApart [] index train_start apart h = tt
  IsRolled-IsApart (f ∷ folds) index train_start apart h = (
    IsRolled-later folds (index + 1) (train_start + days_of (step_of c)) f.test.end_at
        (omega (arith, ap (λ (g : Fold). g.test.end_at) h.0, apart)) h.2,
    IsRolled-IsApart folds (index + 1) (train_start + days_of (step_of c)) apart h.2,
  )

-- Whatever folds are returned, each trains, validates and tests in that order and without an overlap.
pub rolling_folds-IsChronological :
    (c : RollingConfig) (folds : List Fold)
    → c.period.start < c.period.end_at
    → rolling_folds c ≡ ok folds
    → All IsChronological folds
rolling_folds-IsChronological c folds period returned =
    let (has_train, has_test, rolled) = rolling_folds-ok c folds period returned in
    IsRolled-IsChronological c has_train has_test folds 0 c.period.start (omega arith) rolled

-- If a step is no shorter than a test window (a negative one counts as 0), then each fold that is returned trains, validates and tests
-- in that order, and no two of the test windows overlap: each ends before the later ones begin.
pub rolling_folds-IsApart :
    (c : RollingConfig) (folds : List Fold)
    → c.period.start < c.period.end_at
    → rolling_folds c ≡ ok folds
    → c.test_days ≤ days_of (step_of c)
    → All IsChronological folds × IsApart folds
rolling_folds-IsApart c folds period returned apart =
    let (has_train, has_test, rolled) = rolling_folds-ok c folds period returned in
    (
      rolling_folds-IsChronological c folds period returned,
      IsRolled-IsApart c has_train has_test folds 0 c.period.start apart rolled,
    )
