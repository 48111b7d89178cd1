-- ===== src/MarketData.antt =====
-- backend/src/marketData.
pub mod MinuteBars
