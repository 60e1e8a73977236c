-- ===== src/Ai.antt =====
-- The AI gateway and the policies around it (ai/, config/ai_pricing.py).
pub mod Kinds
pub mod Schemas
pub mod Budget
pub mod Limiter
pub mod Cache
pub mod Registry
pub mod Router
pub mod Pricing
pub mod Usage
pub mod Gateway
pub mod Escalation
pub mod Evidence
mod Tests
