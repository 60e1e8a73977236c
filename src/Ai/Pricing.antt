-- ===== src/Ai/Pricing.antt =====
-- `PricingTable` of config/ai_pricing.py. Rates are in millionths of the currency unit for a million
-- tokens, so that a number of tokens times a rate is in millionths of a millionth.
pub mod Projection
use trading_brain.Base.{
  ℕ, ◌+◌, ◌*◌, ◌/◌, Bool, true, false, Option, none, some, List, map, max, ◌==◌, if◌then◌else◌,
  Dict, lookup, sort, round_div,
}
use trading_brain.Ai.Schemas.{Name, AiUsage, AiCost, unknown, priced}

pub record ModelPricing : Type 0 where
  pub input_per_mtok : ℕ
  pub output_per_mtok : ℕ
  pub cache_read_per_mtok : Option ℕ
  pub cache_write_per_mtok : Option ℕ

abbrev pub PricingTable : Type 0
PricingTable = Dict ModelPricing

-- `PricingTable.has`, `PricingTable.priced_models`
abbrev pub has : Name → PricingTable → Bool
has model t = elim (lookup model t) [ none ↦ false | some _ ↦ true ]

unfoldable pub priced_models : PricingTable → List Name
priced_models t = sort (λ (n : Name). n) (map (λ (p : Name × ModelPricing). p.0) t)

-- A total with cached tokens on top. No count and a count of 0 add nothing and need no rate.
unfoldable pub add_cached : Option ℕ → Option ℕ → Option ℕ → Option ℕ
add_cached none rate total = total
add_cached (some tokens) rate total = if tokens == 0 then total else elim rate [
  | none ↦ none
  | some r ↦ elim total [ none ↦ none | some t ↦ some (t + tokens * r) ]
]

abbrev rounded : Option ℕ → AiCost
rounded none = unknown
rounded (some total) = priced (round_div total 1000000)

unfoldable pub total_of : ModelPricing → AiUsage → Option ℕ
unfolding add_cached
total_of p u = elim u.input_tokens [
  | none ↦ none
  | some i ↦ elim u.output_tokens [
    | none ↦ none
    | some o ↦ add_cached u.cache_write_tokens p.cache_write_per_mtok (
        add_cached u.cache_read_tokens p.cache_read_per_mtok
          (some (i * p.input_per_mtok + o * p.output_per_mtok)))
  ]
]

-- `PricingTable.estimate`
unfoldable pub estimate : Name → AiUsage → PricingTable → AiCost
unfolding total_of
estimate model u t = elim (lookup model t) [ none ↦ unknown | some p ↦ rounded (total_of p u) ]

abbrev pub chars_per_token_estimate : ℕ
chars_per_token_estimate = 4

abbrev pub projected_usage : ℕ → ℕ → AiUsage
projected_usage input_chars max_output_tokens = record {
  input_tokens = some (max 1 (input_chars / chars_per_token_estimate));
  output_tokens = some max_output_tokens;
  cache_read_tokens = none;
  cache_write_tokens = none;
}

-- `PricingTable.project`
unfoldable pub project : Name → ℕ → ℕ → PricingTable → AiCost
unfolding estimate
project model input_chars max_output_tokens t =
    estimate model (projected_usage input_chars max_output_tokens) t
