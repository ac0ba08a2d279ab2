-- ===== src/Datapath.antt =====
-- crates/ferrum-ebpf-progs: what the programs in the kernel and the agent share.
pub mod Record
pub mod Slot
pub mod Fill
