-- ===== src/Windows.antt =====
-- windows/process: the memory monitor and the two demonstration programs that use it.
pub mod Monitor
pub mod Metrics
pub mod Allocation
