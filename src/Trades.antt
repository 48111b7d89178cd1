-- ===== src/Trades.antt =====
-- backend/src/engine: open trades from tick to tick, their close, and the account's equity.
pub mod Rows
pub mod History
pub mod Excursion
pub mod Close
pub mod Paper
pub mod Protect
pub mod Reanchor
pub mod Live
pub mod Equity
pub mod Conflict
