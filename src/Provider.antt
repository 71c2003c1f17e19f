-- ===== src/Provider.antt =====
-- crates/mirrorlane-provider: the reference ports and the rule router.
pub mod Routing
pub mod Warmup
pub mod Scope
pub mod Skill
pub mod Hint
pub mod Developer
pub mod Mock
pub mod Caching
