-- ===== src/Execution.antt =====
-- backend/src/execution.
pub mod Mode
pub mod Controls
pub mod Engine
pub mod Reach
