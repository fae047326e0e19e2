-- ===== src/Shim.antt =====
-- crates/shim/src/instance.rs: the containerd shim, which keeps a count of the containers of each
-- pod and has the daemon do the rest; and netns.rs, the removal of a TAP.
pub mod Instance
pub mod Ops
pub mod Count
pub mod Pod
pub mod Faults
pub mod Races
pub mod Keys
pub mod Images
pub mod Cgroups
pub mod Slices
pub mod Netns
