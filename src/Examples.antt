-- ===== src/Examples.antt =====
-- Runs of the code on concrete values.
mod Alarms
mod Notices
mod Records
mod Rules
mod Prices
mod Reports
mod Loop
mod Reviewed
