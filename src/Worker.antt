-- ===== src/Worker.antt =====
-- crates/mirrorlane-worker: the jobs of the pipeline, their composition into the projection strategy,
-- and the derived output that a run publishes.
pub mod Composition
pub mod Jobs
pub mod Grouping
pub mod Replay
pub mod Derived
pub mod Registry
pub mod Submission
pub mod DeadLetters
pub mod Observer
pub mod RoutedWork
