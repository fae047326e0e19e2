-- ===== src/Shadow.antt =====
-- crates/daemon/src/shadow.rs: the cache of workload snapshots and the shadow VMs that fill it.
pub mod Cache
pub mod Eviction
pub mod Lookup
pub mod Task
pub mod Behaviour
pub mod Trigger
pub mod Consistency
pub mod Cmdline
