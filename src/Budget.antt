-- ===== src/Budget.antt =====
-- internal/budget: the forecast engine behind the capacity and the SLO sensors.
pub mod Types
pub mod Engine
pub mod Evaluate
