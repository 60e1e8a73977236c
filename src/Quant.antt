-- ===== src/Quant.antt =====
-- The deterministic mathematics of quant/performance, on the operations that it uses of Python's floats.
pub mod Floats
pub mod Whole
pub mod Accounting
