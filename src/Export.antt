-- ===== src/Export.antt =====
-- crates/ferrum-export: how events leave the agent.
pub mod Queue
