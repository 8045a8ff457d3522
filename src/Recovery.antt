-- ===== src/Recovery.antt =====
-- The failure-and-recovery load test of experiments/experiment3/locustfile.py.
pub mod Checker
pub mod Task
pub mod User
pub mod Session
pub mod Crowd
