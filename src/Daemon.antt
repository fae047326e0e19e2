-- ===== src/Daemon.antt =====
-- crates/daemon/src/api.rs: the handlers of the sandbox daemon on the pool, the snapshots and the
-- connections to the guest agents; and crates/daemon/src/netns.rs, the network of a pod.
pub mod State
pub mod Network
pub mod Gateway
pub mod Subnet
pub mod Tap
pub mod Moves
pub mod Unmoved
pub mod Vm
pub mod Handlers
pub mod Requests
pub mod Effects
pub mod Acquire
pub mod Warm
pub mod Routing
pub mod Names
pub mod WarmNames
