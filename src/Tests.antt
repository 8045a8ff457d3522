-- ===== src/Tests.antt =====
-- A concrete world, and the theorems at concrete inputs.
mod Codec
mod Sample
mod Client
mod Recovery
mod Load
mod Scripts
mod Shared
mod Stored
mod Drawn
mod Charts
mod Latency
