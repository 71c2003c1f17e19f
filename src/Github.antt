-- ===== src/Github.antt =====
-- crates/mirrorlane-github
pub mod Item
pub mod Draft
pub mod Rest
