-- ===== src/Daemon/Warm.antt =====
-- api.rs: what a warm restore sends to the host and to the agent for the container that was asked
-- for.
use containerd_cloudhypervis.Common.{◌≡◌, ◌⊎◌, true, false, some, List, ◌∷◌, Text, Result, ok}
use containerd_cloudhypervis.Pool.State.{PoolVm}
use containerd_cloudhypervis.Shadow.Task
use containerd_cloudhypervis.Daemon.State.{
  Daemon, Error, Sent, tap_prepared, tap_activated, add_net, configure_network,
}
use containerd_cloudhypervis.Daemon.Network.{
  PodNetInfo, tap_name, before_slash, after_slash, prefix_or_24,
}
use containerd_cloudhypervis.Daemon.Vm.{is_empty}
use containerd_cloudhypervis.Daemon.Handlers.{AcquireRequest, AcquireTrial, AcquireResponse}

-- The requests that give a VM the network of its pod, the newest first, after those of before.
unfoldable pub network_requests : Text → PoolVm → PodNetInfo → List Sent → List Sent
network_requests netns vm info before =
    configure_network vm.vsock_socket (before_slash info.ip_cidr)
      (prefix_or_24 (after_slash info.ip_cidr)) info.gateway
    ∷ tap_activated netns (tap_name vm.vm_id)
    ∷ add_net vm.api_socket (tap_name vm.vm_id) info.mac
    ∷ tap_prepared netns (tap_name vm.vm_id)
    ∷ before

-- Nothing was sent for a request without a network namespace, and for one with a namespace the four
-- requests that give the VM the network which the probe found in it.
abbrev pub OnlyNetworked : AcquireRequest → AcquireTrial → PoolVm → List Sent → List Sent → Type 0
OnlyNetworked r t vm before after =
    ((is_empty r.netns ≡ true) × (after ≡ before))
    ⊎ ((is_empty r.netns ≡ false)
        × ((info : PodNetInfo) × (t.net.prepared ≡ some info)
            × (after ≡ network_requests r.netns vm info before)))

-- What an answer from a snapshot says of the requests that were sent.
abbrev Told :
    AcquireRequest → AcquireTrial → List Sent → Result Error AcquireResponse × Daemon → Type 0
Told r t before x =
    (answer : AcquireResponse)
    → x.0 ≡ ok answer
    → answer.from_snapshot ≡ true
    → (answer.container_pid ≡ 0) × OnlyNetworked r t answer.vm before x.1.sent
