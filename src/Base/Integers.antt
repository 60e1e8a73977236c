-- ===== src/Base/Integers.antt =====
-- Integers over the native numbers.
use Prim.Native.Nat.{ℕ}
use mathlib.Core.Bool.{Bool, true, false}

pub data ℤ : Type 0 where
  pos : ℕ → ℤ
  -- `negsuc n` is `- (n + 1)`.
  negsuc : ℕ → ℤ

abbrev pub is_negative : ℤ → Bool
is_negative (ℤ.pos n) = false
is_negative (ℤ.negsuc n) = true
