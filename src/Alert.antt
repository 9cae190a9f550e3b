-- ===== src/Alert.antt =====
-- internal/alert: which state changes are worth a message, and how a message is sent.
pub mod Dedupe
pub mod Telegram
pub mod Coord
