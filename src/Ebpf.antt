-- ===== src/Ebpf.antt =====
-- crates/ferrum-ebpf: the policy program of the runtime plane.
pub mod Spec
pub mod Reader
pub mod Decode
pub mod Eval
pub mod Event
pub mod Prefilter
pub mod Krules
