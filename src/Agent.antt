-- ===== src/Agent.antt =====
-- crates/agent/src: the guest agent. `Agent.Manager` is the container manager of container.rs, and
-- `Agent.Server`, `Agent.Rpc`, `Agent.Network` and `Agent.MemInfo` the RPC handlers of server.rs.
pub mod Manager
pub mod Server
pub mod Tables
pub mod Lifecycle
pub mod Keeps
pub mod Calls
pub mod History
pub mod Layers
pub mod Elsewhere
pub mod Wait
pub mod Logs
pub mod Signals
pub mod Paths
pub mod Disks
pub mod Network
pub mod MemInfo
pub mod Rpc
pub mod Oci
pub mod Adapted
