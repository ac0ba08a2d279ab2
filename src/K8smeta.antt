-- ===== src/K8smeta.antt =====
-- crates/ferrum-k8smeta: which pod a cgroup belongs to.
pub mod Index
pub mod Resolver
