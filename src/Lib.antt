-- ===== src/Lib.antt =====
-- containerd-cloudhypervisor: pods in Cloud Hypervisor virtual machines. A containerd shim
-- (crates/shim) has a sandbox daemon (crates/daemon) lend it a VM; the daemon keeps a pool of VMs that
-- were restored from a base snapshot, and a cache of snapshots with an image warmed up; an agent in the
-- guest (crates/agent) mounts the image and runs the containers.
--
-- The parts, and the files that model them:
--   * Pool: crates/daemon/src/pool.rs, with `spawn_ch` and `shutdown_and_destroy` of
--     crates/daemon/src/vm_lifecycle.rs. `Pool.State` has the state (idle VMs, active VMs,
--     counters, and the processes and directories on the host), `Pool.Restore` the fallible
--     operations `restore_one`, `create_base_snapshot` and `destroy_vm`, `Pool.Ops` the public
--     ones. `Pool.Fresh`, `Pool.Invariant`, `Pool.Preserve`, `Pool.Registered`, `Pool.Initial`,
--     `Pool.History` and `Pool.Behaviour` are about them; `Pool.Races` splits `restore_one` and
--     `replenish_one` where other operations may come between. `Pool.Snapshot` is the function
--     `prepare_snapshot` of vm_lifecycle.rs, and `Pool.Patched` and `Pool.Prepared` are about it.
--     `Pool.Service` is what the callers of a pool are promised, and `Pool.Refines` its refinement.
--   * Shadow: crates/daemon/src/shadow.rs. `Shadow.Cache` is the snapshot cache, `Shadow.Task` the
--     life of a shadow VM and the warm restore, `Shadow.Trigger` the spawning of shadow tasks with
--     its interleavings as a step relation, `Shadow.Cmdline` the function `strip_kernel_ip`.
--   * Daemon: crates/daemon/src/api.rs. `Daemon.State` joins pool, snapshots and agent connections
--     and records what is sent; `Daemon.Network`, `Daemon.Vm`, `Daemon.Handlers` and
--     `Daemon.Requests` have its functions under their own names. A handler runs the operations of
--     Pool and Shadow on the daemon's state. crates/daemon/src/netns.rs is `Daemon.Gateway`
--     (`infer_gateway`) and `Daemon.Tap` (`prepare_tap`, `activate_tap`); `Daemon.Subnet`,
--     `Daemon.Moves`, `Daemon.Unmoved` are about them. `Daemon.Warm` is about the warm restore, and
--     `Daemon.WarmNames` about the names of its VMs in the pool.
--   * Shim: crates/shim/src/instance.rs. `Shim.Instance` is the table of pods, `Shim.Ops` the calls
--     of containerd, `Shim.Keys` the key of an image, `Shim.Images` the cache of erofs files,
--     `Shim.Cgroups` the cgroup paths, `Shim.Netns` the function `cleanup_tap` of
--     crates/shim/src/netns.rs; `Shim.Slices`, `Shim.Count`, `Shim.Pod`, `Shim.Faults` and
--     `Shim.Races` are about them.
--   * Agent: crates/agent/src/container.rs (`Agent.Manager`, in three children; `Agent.Paths` for
--     the files of inline volumes, `Agent.Disks` for the disks of block volumes, `Agent.Oci` for
--     `adapt_oci_spec_for_vm`, which `Agent.Adapted` is about) and crates/agent/src/server.rs:
--     `Agent.Server` has the handlers `wait_container` and `get_container_logs`, `Agent.Network`
--     the set-up of the guest's network, `Agent.MemInfo` the reading of /proc/meminfo, `Agent.Rpc`
--     the other handlers. `Agent.Elsewhere` is what the calls of the manager leave alone, and
--     `Agent.Wait` a `WaitContainer` and its container from start to exit.
--   * Netlink: crates/common/src/netlink.rs. `Netlink.Bytes` has the numbers in byte buffers and
--     the headers, `Netlink.Attributes` the parsers, `Netlink.Socket` the socket and a request,
--     `Netlink.Scan` and `Netlink.Dump` the two loops of `dump`, `Netlink.Links` the calls with one
--     answer, `Netlink.Replies` and `Netlink.Queries` those that read a dump, `Netlink.Redirect`
--     the redirect filter, `Netlink.Configure` the function `configure_interface`,
--     `Netlink.Address` the addresses in dotted decimals, `Netlink.Namespaces` the work in a pod's
--     namespace that both netns.rs share. `Netlink.Encoding` and `Netlink.Dumped` write attributes
--     and datagrams as the kernel does; the other children are about these definitions. The kernel
--     is the list of errnos and datagrams that its answers are.
--   * Json: what the sources use of `serde_json`, as a record of operations and one of their
--     documented laws, which the models of `adapt_oci_spec_for_vm` and `prepare_snapshot` take as a
--     parameter.
--   * Common: lists, texts, maps and results that the parts share. `Examples` runs the models.
--
-- How code becomes definitions. An operation that may fail is a function from the state to a result
-- and the new state, chained by a do block as the source chains `?`; what was done before a failure
-- stays done. What the operating system, Cloud Hypervisor, the guest agent or a file decides is an
-- argument, a record of outcomes named `Trial`, so a theorem for all trials is one for all outcomes.
-- A text is its list of bytes. A `HashMap` is an association list whose order stands for the order of
-- iteration. Numbers are natural numbers; 64-bit counters wrap explicitly, and where a theorem needs
-- that a counter has not wrapped, it says so. Each operation is one step, except in
-- `Shadow.Trigger`, `Pool.Races` and `Shim.Races`.
--
-- Fuel: `show_dec` is given one round more than its number, which is more than it has digits, and
-- `show_hex` the 32 rounds that a 128-bit number takes; `evict` is given one round more than the
-- cache has entries, and the cache shrinks in every round. The loops over attributes and messages
-- have a round for each byte and one more; a loop that would go on for ever, or an index outside a
-- buffer, is an outcome of its own (`Netlink.Bytes.Fault`). The loop over datagrams has a round for
-- each datagram and one more; where none is left the call waits (`blocked`).
--
-- Not modelled: reading and writing of JSON texts, sockets and the HTTP client; times other than
-- those that are stored; the system calls that open a Netlink socket or a TAP; boot and mounts in
-- the guest; configuration files; generated RPC code.
pub mod Common
pub mod Json
pub mod Pool
pub mod Shadow
pub mod Agent
pub mod Daemon
pub mod Shim
pub mod Netlink
pub mod Examples
