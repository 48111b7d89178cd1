-- ===== src/Brokers.antt =====
-- backend/src/brokers.
pub mod Types
pub mod Simulated
