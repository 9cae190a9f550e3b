-- ===== src/Catalog.antt =====
-- internal/catalog: the rules that drive the sensors.
pub mod Types
pub mod Classify
pub mod Load
pub mod Namespaces
pub mod Auto
