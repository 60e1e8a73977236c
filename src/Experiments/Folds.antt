-- ===== src/Experiments/Folds.antt =====
-- `Period` of experiments/config.py, and `Fold` and `rolling_folds` of experiments/walkforward.py. Dates
-- are numbered days from 0001-01-01, the first that there is, to 9999-12-31; the names of periods, which
-- repeat the index, are left out. The days to train and to test are naturals: a negative number of either
-- is refused by the test that refuses 0.
pub mod Turns
pub mod Steps
pub mod Rolling
use trading_brain.Base.{
  ℕ, zero, suc, ◌+◌, ◌-◌, Bool, true, false, ◌&&◌, ◌||◌, Option, none, some, List, [], ◌∷◌, ltb,
  leb, ◌==◌, if◌then◌else◌, Result, ok, err, ◌>>=◌, ℤ,
}

pub record Period : Type 0 where
  pub start : ℕ
  pub end_at : ℕ

pub record Fold : Type 0 where
  pub index : ℕ
  pub train : Period
  pub validation : Option Period
  pub test : Period

-- `ValueError`, `LeakageError`, `OverflowError`, and that the fuel of the loop is spent, which does not
-- happen.
pub data FoldError : Type 0 where
  value_error leakage_error overflow_error out_of_fuel : FoldError

-- `dt.date.max`
abbrev pub max_day : ℕ
max_day = 3_652_058

-- A date and a `timedelta` of so many days.
abbrev pub after : ℕ → ℤ → Result FoldError ℕ
after day (ℤ.pos n) = if ltb max_day (day + n) then err FoldError.overflow_error else ok (day + n)
after day (ℤ.negsuc n) = if leb day n then err FoldError.overflow_error else ok (day - (n + 1))

-- `Period.__post_init__`
unfoldable pub period_of : ℕ → ℕ → Result FoldError Period
period_of start end_at =
    if leb end_at start
    then err FoldError.value_error
    else ok (record { start = start; end_at = end_at })

-- `Period.contains`
abbrev pub contains : Period → ℕ → Bool
contains p day = leb p.start day && ltb day p.end_at

-- `Fold.__post_init__`
abbrev pub fold_post_init : Fold → Result FoldError Fold
fold_post_init f = elim f.validation [
  | some v ↦
      if ltb v.start f.train.end_at
      then err FoldError.leakage_error
      else if ltb f.test.start v.end_at
      then err FoldError.leakage_error
      else ok f
  | none ↦ if ltb f.test.start f.train.end_at then err FoldError.leakage_error else ok f
]

-- The arguments of `rolling_folds`.
pub record RollingConfig : Type 0 where
  pub period : Period
  pub train_days : ℕ
  pub validation_days : ℤ
  pub test_days : ℕ
  pub step_days : Option ℤ
  pub anchored : Bool

abbrev pub or_days : ℤ → ℕ → ℤ
or_days (ℤ.pos n) days = if n == 0 then ℤ.pos days else ℤ.pos n
or_days (ℤ.negsuc n) days = ℤ.negsuc n

-- `step_days or test_days`
abbrev pub step_of : RollingConfig → ℤ
step_of c = elim c.step_days [ none ↦ ℤ.pos c.test_days | some step ↦ or_days step c.test_days ]

abbrev pub is_positive : ℤ → Bool
is_positive (ℤ.pos n) = ltb 0 n
is_positive (ℤ.negsuc n) = false

unfoldable pub validation_of : RollingConfig → ℕ → ℕ → Result FoldError (Option Period)
unfolding period_of
validation_of c train_end val_end =
    if is_positive c.validation_days
    then (period_of train_end val_end >>= λ v. ok (some v))
    else ok none

-- The fold that the body of the loop builds of its dates.
unfoldable pub fold_of :
    RollingConfig → (index train_start train_end val_end test_end : ℕ) → Result FoldError Fold
unfolding period_of validation_of
fold_of c index train_start train_end val_end test_end =
    period_of (if c.anchored then c.period.start else train_start) train_end >>= λ train.
    validation_of c train_end val_end >>= λ validation. period_of val_end test_end >>= λ test.
    fold_post_init (record { index = index; train = train; validation = validation; test = test })

-- The loop, on fuel.
unfoldable pub folds_from : RollingConfig → ℕ → ℕ → ℕ → Result FoldError (List Fold)
folds_from c zero index train_start = err FoldError.out_of_fuel
folds_from c (suc fuel) index train_start = after train_start (ℤ.pos c.train_days) >>= λ train_end.
    after train_end c.validation_days >>= λ val_end.
    after val_end (ℤ.pos c.test_days) >>= λ test_end.
    if ltb c.period.end_at test_end
    then ok []
    else (fold_of c index train_start train_end val_end test_end >>= λ f.
        after train_start (step_of c) >>= λ next.
        folds_from c fuel (index + 1) next >>= λ folds. ok (f ∷ folds))

-- `if not folds: raise ValueError`
abbrev pub some_folds : List Fold → Result FoldError (List Fold)
some_folds [] = err FoldError.value_error
some_folds (f ∷ folds) = ok (f ∷ folds)

unfoldable pub rolling_folds : RollingConfig → Result FoldError (List Fold)
unfolding folds_from
rolling_folds c =
    if ltb c.train_days 1 || ltb c.test_days 1
    then err FoldError.value_error
    else (folds_from c (suc (c.period.end_at + 1)) 0 c.period.start >>= some_folds)
