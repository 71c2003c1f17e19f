-- ===== src/Tests.antt =====
-- Concrete inputs at which the theorems apply, one module for each group of parts.
pub mod Fixtures
pub mod Logs
pub mod Runs
pub mod Ports
pub mod Tables
pub mod Commands
pub mod Effects
