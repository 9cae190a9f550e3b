-- ===== src/Daemon.antt =====
-- cmd/sentinel: one round of the daemon's main loop.
pub mod Notify
pub mod Round
pub mod Digest
pub mod Setup
pub mod Weekly
pub mod Loop
