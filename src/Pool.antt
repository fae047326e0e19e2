-- ===== src/Pool.antt =====
-- crates/daemon/src/pool.rs: the pool of pre-booted VMs. The operations are in `Pool.Restore` (what
-- starts and stops a VM) and `Pool.Ops` (what the shims call); `Pool.Snapshot`
-- makes the directory that one VM is restored from.
pub mod State
pub mod Restore
pub mod Ops
pub mod Fresh
pub mod Invariant
pub mod Preserve
pub mod Registered
pub mod Initial
pub mod History
pub mod Behaviour
pub mod Races
pub mod Service
pub mod Refines
pub mod Snapshot
pub mod Patched
pub mod Prepared
