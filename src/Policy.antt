-- ===== src/Policy.antt =====
-- crates/ferrum-policy: the validator of policies.
pub mod Runtime
pub mod Loads
pub mod Exceptions
