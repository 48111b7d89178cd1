-- ===== src/Risk.antt =====
-- backend/src/risk: the gates and the sizing that stand between a scored setup and an order.
pub mod Sizing
pub mod Stops
pub mod Brackets
pub mod TiltGate
pub mod ChartZoneGate
pub mod CircuitBreakers
pub mod DailyPlan
pub mod TradePlan
pub mod Engine
