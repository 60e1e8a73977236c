-- ===== src/Brain.antt =====
-- The brain (brain/): attention signals, detected changes and what they may lead to.
pub mod Changes
pub mod Learning
pub mod Signals
mod ScanTests
mod Tests
pub mod Priority
pub mod Intelligence
