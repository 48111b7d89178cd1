-- ===== src/Analytics.antt =====
-- backend/src/analytics: readings of the bars that the gates, the sizing and the scorers rest on.
pub mod Outcome
pub mod Session
pub mod SupportResistance
pub mod VolumeProfile
pub mod OpeningRange
pub mod Fibonacci
pub mod EmaTrend
pub mod Vwap
pub mod SmartEntry
pub mod Flow
pub mod Labels
