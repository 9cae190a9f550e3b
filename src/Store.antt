-- ===== src/Store.antt =====
-- internal/store: what the program keeps in SQLite, as tables of rows.
pub mod Stamp
pub mod Migrations
pub mod States
pub mod Predictions
pub mod WasteRows
