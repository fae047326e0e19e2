-- ===== src/Examples/Daemons.antt =====
-- Runs of the models of api.rs.
use containerd_cloudhypervis.Common.{
  ℕ, ◌≡◌, ◌≢◌, refl, true, false, Option, none, some, [], ◌∷◌, ◌++◌, Text, codes, ok, err, arith,
  lookup, insert, show_dec, All,
}
use containerd_cloudhypervis.Pool.State.{Pool, PoolVm}
use containerd_cloudhypervis.Pool.Ops.{acquire, get_active}
use containerd_cloudhypervis.Daemon.State.{
  Daemon, add_disk, run_container, configure_network, no_agent, not_active,
}
use containerd_cloudhypervis.Daemon.Network.{
  PodNetInfo, NetTrial, tap_name, configure_guest_network,
}
use containerd_cloudhypervis.Daemon.Vm.{RunTrial, disk_id, run_container_in_vm}
use containerd_cloudhypervis.Daemon.Handlers.{
  AcquireRequest, AcquireTrial, AcquireResponse, handle_acquire,
}
use containerd_cloudhypervis.Daemon.Requests.{
  handle_add_container, handle_release, handle_kill_container, handle_wait_container,
  handle_delete_container,
}
use containerd_cloudhypervis.Daemon.Acquire.{handle_acquire-active}
use containerd_cloudhypervis.Daemon.Names.{configure_guest_network-sent}
use containerd_cloudhypervis.Daemon.Routing.{handle_add_container-sent, handle_release-closes}
use containerd_cloudhypervis.Examples.Pools.{idle, busy, first_vm, good}
use containerd_cloudhypervis.Examples.Shadows.{full}

abbrev daemon : Pool → Daemon
daemon p = record {
  manager = record { pool = p; snapshots = full };
  tasks = record { active_shadows = []; pending = []; running = [] };
  agents = [];
  warm_counter = 0;
  replenishing = 0;
  sent = [];
}

abbrev info : PodNetInfo
info = record {
  ip_cidr = codes "10.0.0.2/16";
  gateway = codes "10.0.0.1";
  mac = codes "02:00:00:00:00:01";
}

abbrev net : NetTrial
net = record { prepared = some info; plugged = true; activated = true }

abbrev running : Option ℕ → RunTrial
running started = record {
  net = net;
  plugged = true;
  connected = true;
  configured = true;
  started = started;
}

abbrev trial : Option ℕ → AcquireTrial
trial started = record {
  mtime = some 70;
  dir_made = true;
  warm = record {
    linked = true;
    spawned = some 1005;
    pid_written = true;
    api_ready = true;
    restored = true;
    resumed = true;
    now = 10;
  };
  net = net;
  connected = true;
  configured = true;
  restore = good 1001;
  later_mtime = some 70;
  run = running started;
}

abbrev request : Text → AcquireRequest
request key = record {
  netns = codes "/var/run/netns/a";
  image_key = key;
  erofs_path = codes "/e/nginx.erofs";
  container_id = codes "web";
}

abbrev answer : AcquireResponse
answer = record {
  vm = first_vm;
  from_snapshot = false;
  container_pid = 40;
  tap_name = codes "tap_pool-701";
}

handle_acquire-active_example :
    get_active first_vm.vm_id
      (handle_acquire (request (codes "envoy")) (trial (some 40)) (daemon idle)).1.manager.pool
    ≡ some first_vm
unfolding handle_acquire acquire lookup insert run_container_in_vm tap_name
handle_acquire-active_example =
    handle_acquire-active (request (codes "envoy")) (trial (some 40)) (daemon idle) answer refl

abbrev warm_vm : PoolVm
warm_vm = record {
  vm_id = codes "warm-nginx-0";
  api_socket = codes "/run/cloudhv/warm-nginx-0/api.sock";
  vsock_socket = codes "/run/cloudhv/warm-nginx-0/vsock.sock";
  cid = busy.next_cid;
  ch_pid = 1005;
}

abbrev warm_answer : AcquireResponse
warm_answer = record {
  vm = warm_vm;
  from_snapshot = true;
  container_pid = 0;
  tap_name = codes "tap_warm-ngi";
}

no_slash : All (λ c. c ≢ b'/') (codes "10.0.0.2")
no_slash = ground arith

configure_guest_network-sent_example :
    (configure_guest_network
      (codes "/v")
      (codes "10.0.0.2" ++ b'/' ∷ show_dec 16)
      (codes "10.0.0.1")
      true
      (daemon busy)).1.sent
    ≡ configure_network (codes "/v") (codes "10.0.0.2") 16 (codes "10.0.0.1") ∷ []
configure_guest_network-sent_example =
    configure_guest_network-sent (codes "/v") (codes "10.0.0.2") (codes "10.0.0.1") 16 true
      (daemon busy) no_slash (omega arith)

handle_add_container-sent_example :
    let after =
      (handle_add_container first_vm.vm_id
        (codes "/e/b.erofs")
        (codes "job")
        (running (some 41))
        (daemon busy)).1 in
    (after.sent
      ≡ run_container first_vm.vsock_socket (codes "job")
        ∷ add_disk first_vm.api_socket (codes "/e/b.erofs") (disk_id (codes "job"))
        ∷ [])
    × (lookup first_vm.vm_id after.agents ≡ some first_vm.vsock_socket)
    × ((running (some 41)).started ≡ some 41)
    × (after.manager ≡ (daemon busy).manager)
unfolding handle_add_container lookup get_active
handle_add_container-sent_example =
    handle_add_container-sent first_vm.vm_id (codes "/e/b.erofs") (codes "job") (running (some 41))
      (daemon busy) first_vm 41 refl refl

handle_release-closes_example :
    let after = (handle_release first_vm.vm_id (some 1000) (daemon busy)).1 in
    ((handle_release first_vm.vm_id (some 1000) (daemon busy)).0 ≡ ok tt)
    × (handle_kill_container first_vm.vm_id (codes "web") none true after ≡ (err no_agent, after))
    × (handle_wait_container first_vm.vm_id (codes "web") none after ≡ (err no_agent, after))
    × (handle_add_container first_vm.vm_id (codes "/e/b.erofs") (codes "web") (running none) after
        ≡ (err not_active, after))
    × (handle_delete_container first_vm.vm_id (codes "web") after ≡ after)
unfolding lookup
handle_release-closes_example =
    handle_release-closes first_vm.vm_id (codes "web") (codes "/e/b.erofs") (some 1000)
      (running none) (daemon busy) none true none (λ e. ground arith) (λ e. ground arith) tt
      (refl, tt)
