-- ===== src/Health.antt =====
-- Health (observability/checks.py): the checks and the status they add up to.
pub mod Status
pub mod Checks
pub mod Jobs
pub mod Report
mod Tests
