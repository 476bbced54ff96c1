-- ===== src/Core.antt =====
-- crates/post-cortex-core/src/core: the data that every component shares.
pub mod Update
pub mod Names
pub mod Relations
