-- ===== src/Storage.antt =====
-- crates/mirrorlane-storage: the stores that are kept in SQLite. A table is a list of its rows; each
-- statement of the source is a function of the rows that says what the statement says.
pub mod Migrate
pub mod Log
pub mod Derived
pub mod Projections
pub mod Traces
