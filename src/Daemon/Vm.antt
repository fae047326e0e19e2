-- ===== src/Daemon/Vm.antt =====
-- api.rs `run_container_in_vm`.
use containerd_cloudhypervis.Common.{
  ℕ, Bool, true, false, Option, none, some, [], ◌∷◌, ◌++◌, Text, codes, take, lookup, insert,
  if◌then◌else◌,
}
use containerd_cloudhypervis.Daemon.State.{
  add_disk, run_container, hot_plug_rootfs, agent_connect, run_failed, M, ◌>>=◌, ◌>>◌, return,
  attempt, attempt_with, modify, gets, send,
}
use containerd_cloudhypervis.Daemon.Network.{
  PodNetInfo, NetTrial, setup_vm_networking, configure_guest_network,
}

-- `config_json_b64` is left out: the model does not look into the container's configuration.
pub record RunContainerParams : Type 0 where
  pub api_socket : Text
  pub vsock_socket : Text
  pub vm_id : Text
  pub netns : Text
  pub erofs_path : Text
  pub container_id : Text

-- `started` is the pid in the agent's answer to `RunContainer`.
pub record RunTrial : Type 0 where
  pub net : NetTrial
  pub plugged : Bool
  pub connected : Bool
  pub configured : Bool
  pub started : Option ℕ

abbrev pub is_empty : Text → Bool
is_empty [] = true
is_empty (c ∷ cs) = false

unfoldable pub disk_id : Text → Text
disk_id container_id = codes "ctr-" ++ take 12 container_id

-- The networking of the VM, if the request names a network namespace.
unfoldable pub network_if : RunContainerParams → NetTrial → M (Text × Option PodNetInfo)
unfolding setup_vm_networking
network_if p t =
    if is_empty p.netns
    then return ([], none)
    else (setup_vm_networking p.netns p.vm_id p.api_socket t >>= λ x. return (x.0, some x.1))

-- `agents.get(vm_id)`, or else a new connection, which is kept.
unfoldable pub agent_of : Text → Text → Bool → Option Text → M Text
agent_of vm_id vsock connected (some a) = return a
agent_of vm_id vsock connected none = do
  attempt connected agent_connect
  modify (λ s. record s { agents = insert vm_id vsock s.agents })
  return vsock

unfoldable pub configure_if : Text → Option PodNetInfo → Bool → M (Unit {0})
unfolding configure_guest_network
configure_if agent none answered = return tt
configure_if agent (some info) answered =
    configure_guest_network agent info.ip_cidr info.gateway answered

unfoldable pub run_container_in_vm : RunContainerParams → RunTrial → M (ℕ × Text)
unfolding network_if agent_of configure_if
run_container_in_vm p t = do
  net ← network_if p t.net
  attempt t.plugged hot_plug_rootfs
  send (add_disk p.api_socket p.erofs_path (disk_id p.container_id))
  existing ← gets (λ s. lookup p.vm_id s.agents)
  agent ← agent_of p.vm_id p.vsock_socket t.connected existing
  configure_if agent net.1 t.configured
  send (run_container agent p.container_id)
  pid ← attempt_with t.started run_failed
  return (pid, net.0)
