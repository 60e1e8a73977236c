-- ===== src/Base/Rounding.antt =====
-- Python's `round`: to the nearest, and a half to the even neighbour.
use Prim.Native.Nat.{ℕ, ◌+◌, ◌*◌, ◌/◌, ◌%◌, ◌≤◌, ◌<◌}
use native.Mathlib.Omega.{arith}
use native.Mathlib.Nat.{div-le_of_le-mul, div-add-mod', mul_comm}
use mathlib.Core.Path.{◌≡◌, ap}
use mathlib.Core.Logic.{inl, inr}
use trading_brain.Base.Tests.{ltb, ◌==◌, if◌then◌else◌, Bool-cases, ltb-eq-false}

-- `n / d` rounded to a whole number.
unfoldable pub round_div : ℕ → ℕ → ℕ
round_div n d =
    let q = n / d in
    let twice = 2 * (n % d) in
    if ltb twice d then q else if ltb d twice then q + 1 else if q % 2 == 0 then q else q + 1

pub round_div-le : (n d : ℕ) → round_div n d ≤ n / d + 1
unfolding round_div
round_div-le n d = ground arith

-- What is at most a multiple of `d` is rounded to at most that multiple.
pub round_div-le_of : (n d k : ℕ) → 0 < d → n ≤ k * d → round_div n d ≤ k
unfolding round_div
round_div-le_of n d k pos h = elim (Bool-cases (ltb (n / d) k)) [
  | inl below ↦ ground (arith, below, round_div-le n d)
  | inr above ↦
      let k_le : k ≤ n / d = ltb-eq-false (n / d) k above in
      let le_k : n / d ≤ k = div-le_of_le-mul d (omega (arith, h, mul_comm k d)) in
      let same : n / d ≡ k = omega (arith, k_le, le_k) in
      let exact : n % d ≡ 0 = omega (arith, h, div-add-mod' n d, ap (λ (t : ℕ). t * d) same) in
      ground (arith, exact, le_k, pos)
]
