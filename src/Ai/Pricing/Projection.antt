-- ===== src/Ai/Pricing/Projection.antt =====
-- A projection bounds the cost of every answer within it.
use trading_brain.Base.{
  ℕ, ◌+◌, ◌*◌, ◌/◌, ◌≤◌, ◌≡◌, Bool, true, false, ◌&&◌, ◌||◌, ◌==◌, Option, none, some, arith,
  lookup, max, round_div,
}
use native.Mathlib.Nat.{mul-le-mul_right}
use trading_brain.Ai.Schemas.{Name, AiUsage, priced}
use trading_brain.Ai.Pricing.{ModelPricing, PricingTable, estimate, project}

round_div_mono : (a b : ℕ) → a ≤ b → round_div a 1000000 ≤ round_div b 1000000
unfolding round_div
round_div_mono a b h = ground arith

-- The cost of an answer that uses no cached tokens is at most the projection that was made for it,
-- if the prompt came to at most the projected number of tokens and the answer kept to its maximum.
estimate-le-project :
    (model : Name) (t : PricingTable) (chars max_output i o : ℕ) (p : ModelPricing)
    → lookup model t ≡ some p
    → i ≤ max 1 (chars / 4)
    → o ≤ max_output
    → let u : AiUsage = record {
      input_tokens = some i;
      output_tokens = some o;
      cache_read_tokens = none;
      cache_write_tokens = none;
    } in
      (paid : ℕ) × (bound : ℕ) × (estimate model u t ≡ priced paid)
      × (project model chars max_output t ≡ priced bound)
      × (paid ≤ bound)
unfolding project
estimate-le-project model t chars max_output i o p found hi ho = (
  round_div (i * p.input_per_mtok + o * p.output_per_mtok) 1000000,
  round_div (max 1 (chars / 4) * p.input_per_mtok + max_output * p.output_per_mtok) 1000000,
  ground (arith, found),
  ground (arith, found),
  round_div_mono _ _
      (omega (arith, mul-le-mul_right p.input_per_mtok hi, mul-le-mul_right p.output_per_mtok ho)),
)

abbrev is_set {ℓ} : {A : Type ℓ} → Option A → Bool
is_set none = false
is_set (some a) = true

-- No cached tokens, or a rate for them.
abbrev is_rated : Option ℕ → Option ℕ → Bool
is_rated none rate = true
is_rated (some tokens) rate = (tokens == 0) || is_set rate

-- A cost is known exactly if the model has a price, the provider reported the tokens of the prompt
-- and of the answer, and there is a rate for the cached tokens that it reported. A cost that is not
-- known has no amount.
pub known-estimate :
    (model : Name) (u : AiUsage) (t : PricingTable)
    → ((estimate model u t).known ≡ elim (lookup model t) [
      | none ↦ false
      | some p ↦
          is_set u.input_tokens
          && is_set u.output_tokens
          && is_rated u.cache_read_tokens p.cache_read_per_mtok
          && is_rated u.cache_write_tokens p.cache_write_per_mtok
    ])
      × (is_set (estimate model u t).amount ≡ (estimate model u t).known)
unfolding estimate
known-estimate model u t = (ground arith, ground arith)
