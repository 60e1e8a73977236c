-- ===== src/Backtest/WalkForward.antt =====
-- The windows of `WalkForwardValidator` (backtesting/walk_forward.py). The `while` runs on fuel.
pub mod Order
use trading_brain.Base.{
  ℕ, zero, suc, ◌+◌, ◌-◌, ◌≤◌, Bool, true, false, ◌||◌, Option, none, some, List, [], ◌∷◌, length,
  leb, if◌then◌else◌, first, last, Result, ok, err, ◌>>=◌, raise_if,
}

pub record Window : Type 0 where
  pub train_start : ℕ
  pub train_end : ℕ
  pub test_start : ℕ
  pub test_end : ℕ

pub data SplitError : Type 0 where
  sizes_not_positive index_error out_of_fuel : SplitError

pub record WalkForwardValidator : Type 0 where
  pub train_size : ℕ
  pub test_size : ℕ
  pub step : ℕ

-- `WalkForwardValidator.__init__`
unfoldable pub validator : ℕ → ℕ → Option ℕ → Result SplitError WalkForwardValidator
validator train_size test_size step =
    if leb train_size 0 || leb test_size 0
    then err SplitError.sizes_not_positive
    else ok (record {
      train_size = train_size;
      test_size = test_size;
      step = elim step [ none ↦ test_size | some s ↦ s ];
    })

abbrev pub drop : ℕ → List ℕ → List ℕ
drop zero ts = ts
drop (suc n) [] = []
drop (suc n) (t ∷ ts) = drop n ts

abbrev pub take : ℕ → List ℕ → List ℕ
take zero ts = []
take (suc n) [] = []
take (suc n) (t ∷ ts) = t ∷ take n ts

-- `timeline[start : start + size]`
abbrev pub slice : ℕ → ℕ → List ℕ → List ℕ
slice start size timeline = take size (drop start timeline)

abbrev pub index : Option ℕ → Result SplitError ℕ
index none = err SplitError.index_error
index (some t) = ok t

-- The window that begins at an index of the timeline.
unfoldable pub window : WalkForwardValidator → List ℕ → ℕ → Result SplitError Window
window v timeline start =
    let train = slice start v.train_size timeline in
    let test = slice (start + v.train_size) v.test_size timeline in
    index (first train) >>= λ a. index (last train) >>= λ b. index (first test) >>= λ c.
    index (last test) >>= λ d.
    ok (record { train_start = a; train_end = b; test_start = c; test_end = d })

-- The `while` of `split`, from `start` on.
unfoldable pub windows_from :
    WalkForwardValidator → List ℕ → (fuel start : ℕ) → Result SplitError (List Window)
windows_from v timeline zero start = err SplitError.out_of_fuel
windows_from v timeline (suc fuel) start =
    let rest = windows_from v timeline fuel (start + v.step) in
    if leb (start + v.train_size + v.test_size) (length timeline)
    then (window v timeline start >>= λ w. rest >>= λ ws. ok (w ∷ ws))
    else ok []

-- `split`: with a positive step each turn moves on, so one turn more than there are times is enough.
abbrev pub enough : List ℕ → ℕ
enough timeline = length timeline + 1

unfoldable pub split : WalkForwardValidator → List ℕ → Result SplitError (List Window)
unfolding windows_from
split v timeline = windows_from v timeline (enough timeline) 0
