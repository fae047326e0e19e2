-- ===== src/Netlink.antt =====
-- crates/common/src/netlink.rs: the Netlink messages with which daemon, shim and agent configure
-- network interfaces, byte for byte, and the loops that read the kernel's answers.
-- `Netlink.Namespaces` is what the netns.rs of daemon and shim share.
pub mod Bytes
pub mod Attributes
pub mod Bounds
pub mod Encoding
pub mod RoundTrip
pub mod Socket
pub mod Scan
pub mod Dump
pub mod Dumped
pub mod Answers
pub mod Address
pub mod Links
pub mod Replies
pub mod Queries
pub mod Redirect
pub mod Spins
pub mod Requests
pub mod Unheard
pub mod Configure
pub mod Configured
pub mod Namespaces
pub mod Entered
pub mod Sent
