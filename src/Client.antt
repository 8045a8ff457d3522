-- ===== src/Client.antt =====
-- The onion-routing client of experiments/locust/circuit_client.py.
pub mod Aes
pub mod Directory
pub mod Setup
pub mod Onion
pub mod Reply
pub mod Execute
pub mod Quiet
