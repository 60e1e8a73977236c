-- ===== src/Experiments.antt =====
-- Experiments (experiments/): the folds of a walk-forward validation and the bars that each may see.
pub mod Audit
pub mod Folds
pub mod Slices
mod Tests
