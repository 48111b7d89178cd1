-- ===== src/Scoring.antt =====
-- backend/src/scoring: which version of the scorer decides.
pub mod Versions
pub mod SessionPerformance
pub mod Bandit
