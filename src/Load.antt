-- ===== src/Load.antt =====
-- The Locust load tests of experiments/locust.
pub mod Shape
pub mod Ramp
pub mod Circuit
pub mod Throughput
pub mod Settings
pub mod Baseline
