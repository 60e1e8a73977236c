-- ===== src/Quant/Floats.antt =====
-- What the code uses of Python's `float`. Nothing is assumed of the operations here, so that what is
-- proved from them holds of floats as they are, rounding and NaN included.
use trading_brain.Base.{ℕ, Bool, ◌≡◌, false, if◌then◌else◌}

pub record Floats : Type 1 where
  pub F : Type 0
  -- A whole number, and 1e-9.
  pub whole : ℕ → F
  pub tiny : F
  pub add : F → F → F
  pub sub : F → F → F
  pub mul : F → F → F
  pub div : F → F → F
  pub neg : F → F
  pub abs : F → F
  -- `round(x, 6)`
  pub round6 : F → F
  pub lt : F → F → Bool
  pub le : F → F → Bool
  pub eq : F → F → Bool
  -- Not a number; `None`, where a number is expected, counts as that too.
  pub is_missing : F → Bool

module _ (num : Floats) where
  -- `max(a, b)` and `min(a, b)`, which keep `a` unless `b` is beyond it.
  abbrev pub max_of : num.F → num.F → num.F
  max_of a b = if num.lt a b then b else a

  abbrev pub min_of : num.F → num.F → num.F
  min_of a b = if num.lt b a then b else a

-- Five facts of IEEE arithmetic and of `round`, which NaN does not contradict.
pub record IsRounding (num : Floats) : Type 0 where
  -- Rounding does not take a number below 0.
  pub round-lt_zero :
      (x : num.F) → num.lt x (num.whole 0) ≡ false → num.lt (num.round6 x) (num.whole 0) ≡ false
  -- Taking off no more than there is leaves nothing below 0.
  pub sub-lt_zero : (a b : num.F) → num.lt a b ≡ false → num.lt (num.sub a b) (num.whole 0) ≡ false
  -- The sum of two numbers that are not below 0 is not below 0.
  pub add-lt_zero :
      (a b : num.F)
      → num.lt a (num.whole 0) ≡ false
      → num.lt b (num.whole 0) ≡ false
      → num.lt (num.add a b) (num.whole 0) ≡ false
  -- A number that is not at or below 0 is not below 0.
  pub le-lt_zero : (x : num.F) → num.le x (num.whole 0) ≡ false → num.lt x (num.whole 0) ≡ false
  pub zero-lt_zero : num.lt (num.whole 0) (num.whole 0) ≡ false
