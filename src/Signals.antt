-- ===== src/Signals.antt =====
-- backend/src/engine/loop.ts: from the scores of a signal to an order, and the management of open trades.
pub mod Consensus
pub mod Attempt
