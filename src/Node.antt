-- ===== src/Node.antt =====
-- internal/node: what the agent reads of its node, and the taint that it removes.
pub mod Explorer
pub mod Tainter
