-- ===== src/Cost.antt =====
-- internal/cost: what the month will cost, from a bill or from usage and unit prices.
pub mod Days
pub mod Forecast
pub mod Estimate
pub mod Weekly
