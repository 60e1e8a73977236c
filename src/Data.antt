-- ===== src/Data.antt =====
-- Data coming in (data/): the validation of price bars.
pub mod Validation
pub mod Prices
pub mod Providers
pub mod ResearchQueue
mod Tests
mod PriceTests
