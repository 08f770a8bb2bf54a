-- ===== src/Tests.antt =====
-- Test data, and the theorems at concrete inputs.
mod Demo
mod Pool
mod Chain
mod Sessions
mod Scripts
mod Signing
mod Store
mod Records
mod Races
