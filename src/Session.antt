-- ===== src/Session.antt =====
-- crates/post-cortex-core/src/session/session_components.rs.
pub mod HotContext
pub mod EntityGraph
pub mod Structured
pub mod Active
