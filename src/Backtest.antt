-- ===== src/Backtest.antt =====
-- The backtester (backtesting/): a strategy that sees the past only, and an engine that fills its orders
-- at the next bar.
pub mod Schemas
pub mod MarketView
pub mod Fills
pub mod Engine
pub mod Strategies
pub mod WalkForward
mod Tests
mod StrategyTests
