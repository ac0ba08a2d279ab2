-- ===== src/Agent.antt =====
-- crates/ferrum-agent: the agent on a node.
pub mod Ring
pub mod Clock
pub mod Respond
pub mod React
pub mod Handle
pub mod Pump
