-- ===== src/Runtime.antt =====
-- crates/mirrorlane-runtime: the generic step and the semantic cache.
pub mod Step
pub mod Cache
