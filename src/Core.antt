-- ===== src/Core.antt =====
-- crates/mirrorlane-core: the domain data, and the stores and the message log over it.
pub mod Message
pub mod Projection
pub mod Scope
pub mod Skill
pub mod Warmup
pub mod Routing
pub mod Derivation
pub mod MessageLog
pub mod Store
