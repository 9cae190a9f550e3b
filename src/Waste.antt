-- ===== src/Waste.antt =====
-- internal/waste: idle resources, and what becomes of the candidates.
pub mod Tracker
pub mod Rightsizing
pub mod Scanner
pub mod Persist
