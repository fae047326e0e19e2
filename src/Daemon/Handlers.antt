-- ===== src/Daemon/Handlers.antt =====
-- api.rs: `handle_acquire`. A request is given by its fields; an absent text is empty.
use containerd_cloudhypervis.Common.{
  join, ℕ, suc, ◌+◌, Bool, true, false, ◌||◌, Option, none, some, [], ◌∷◌, ◌++◌, Text, codes,
  show_dec, Result, ok, err, insert, if◌then◌else◌,
}
use containerd_cloudhypervis.Pool.State.{PoolVm, u64, next_cid_pub}
use containerd_cloudhypervis.Pool.Restore.{Trial, on_host}
use containerd_cloudhypervis.Pool.Ops.{acquire, register_active}
use containerd_cloudhypervis.Shadow.Cache.{has_snapshot}
use containerd_cloudhypervis.Shadow.Task.{Manager, WarmTrial, restore_from_snapshot}
use containerd_cloudhypervis.Shadow.Task
use containerd_cloudhypervis.Shadow.Trigger.{trigger_shadow}
use containerd_cloudhypervis.Daemon.State.{
  Daemon, state_dir, agent_connect, M, ◌>>=◌, ◌>>◌, return, attempt, modify, gets, on_pool, in_pool,
}
use containerd_cloudhypervis.Daemon.Network.{NetTrial, setup_vm_networking, configure_guest_network}
use containerd_cloudhypervis.Daemon.Vm.{RunTrial, is_empty, run_container_in_vm}

pub record AcquireRequest : Type 0 where
  pub netns : Text
  pub image_key : Text
  pub erofs_path : Text
  pub container_id : Text

-- How the steps of an acquire come out. `mtime` and `later_mtime` are what reading the erofs file
-- gives to the two checks of the snapshot.
pub record AcquireTrial : Type 0 where
  pub mtime : Option ℕ
  pub dir_made : Bool
  pub warm : WarmTrial
  pub net : NetTrial
  pub connected : Bool
  pub configured : Bool
  pub restore : Trial
  pub later_mtime : Option ℕ
  pub run : RunTrial

pub record AcquireResponse : Type 0 where
  pub vm : PoolVm
  pub from_snapshot : Bool
  pub container_pid : ℕ
  pub tap_name : Text

-- `snapshots.trigger_shadow(image_key, erofs_path)`
unfoldable pub trigger : Text → Option ℕ → Daemon → Daemon
unfolding has_snapshot trigger_shadow
trigger image_key mtime s =
    let (found, c) = has_snapshot image_key (some mtime) s.manager.snapshots in
    record s {
      manager = record s.manager { snapshots = c };
      tasks = trigger_shadow found image_key s.tasks;
    }

unfoldable pub trigger_if : AcquireRequest → Option ℕ → Daemon → Daemon
unfolding trigger
trigger_if r mtime s =
    if is_empty r.image_key || is_empty r.erofs_path then s else trigger r.image_key mtime s

unfoldable pub run_if : AcquireRequest → PoolVm → RunTrial → M (ℕ × Text)
run_if r vm t =
    if is_empty r.erofs_path || is_empty r.container_id
    then return (0, [])
    else run_container_in_vm
        (record {
          api_socket = vm.api_socket;
          vsock_socket = vm.vsock_socket;
          vm_id = vm.vm_id;
          netns = r.netns;
          erofs_path = r.erofs_path;
          container_id = r.container_id;
        })
        t

-- The part of `handle_acquire` that takes a VM from the pool.
unfoldable pub acquire_pooled : AcquireRequest → AcquireTrial → M AcquireResponse
unfolding trigger_if run_if
acquire_pooled r t = do
  vm ← in_pool (acquire t.restore)
  modify (λ s. record s { replenishing = suc s.replenishing })
  modify (trigger_if r t.later_mtime)
  ran ← run_if r vm t.run
  return (record { vm = vm; from_snapshot = false; container_pid = ran.0; tap_name = ran.1 })

-- Networking on a warm restore: the VM gets a connection to its agent, and that the guest's network
-- cannot be configured is only logged.
unfoldable pub warm_networking : AcquireRequest → AcquireTrial → PoolVm → M Text
unfolding setup_vm_networking configure_guest_network
warm_networking r t vm = if is_empty r.netns then return [] else do
  net ← setup_vm_networking r.netns vm.vm_id vm.api_socket t.net
  attempt t.connected agent_connect
  modify (λ s. record s { agents = insert vm.vm_id vm.vsock_socket s.agents })
  modify
      (λ s. (configure_guest_network vm.vsock_socket net.1.ip_cidr net.1.gateway t.configured s).1)
  return net.0

unfoldable pub acquire_restored : AcquireRequest → AcquireTrial → PoolVm → M AcquireResponse
unfolding warm_networking
acquire_restored r t vm = do
  tap ← warm_networking r t vm
  modify (on_pool (register_active vm))
  return (record { vm = vm; from_snapshot = true; container_pid = 0; tap_name = tap })

-- What follows the restore of a snapshot: a restore that fails falls back to the pool.
unfoldable pub after_restore :
    AcquireRequest
    → AcquireTrial
    → Text
    → ℕ
    → Result Task.Error (ℕ × Text × Text) × Manager
    → M AcquireResponse
unfolding acquire_restored acquire_pooled
after_restore r t vm_id cid (ok (pid, api, vsock), m) s =
    acquire_restored r t
      (record { vm_id = vm_id; api_socket = api; vsock_socket = vsock; cid = cid; ch_pid = pid })
      (record s { manager = m })
after_restore r t vm_id cid (err e, m) s = acquire_pooled r t (record s { manager = m })

unfoldable pub restore_warm : AcquireRequest → AcquireTrial → Text → ℕ → Text → M AcquireResponse
unfolding after_restore
restore_warm r t vm_id cid dir s =
    after_restore r t vm_id cid (restore_from_snapshot r.image_key dir t.warm s.manager) s

unfoldable pub warm_id : Text → ℕ → Text
warm_id image_key seq = codes "warm-" ++ image_key ++ b'-' ∷ show_dec seq

-- The part of `handle_acquire` for an image with a snapshot.
unfoldable pub acquire_warm : AcquireRequest → AcquireTrial → M AcquireResponse
unfolding restore_warm warm_id
acquire_warm r t = do
  seq ← gets (λ s. s.warm_counter)
  modify (λ s. record s { warm_counter = u64 (s.warm_counter + 1) })
  let vm_id = warm_id r.image_key seq
  dir ← gets (λ s. join s.manager.pool.state_dir vm_id)
  attempt t.dir_made state_dir
  modify (on_pool (on_host (λ h. record h { dirs = dir ∷ h.dirs })))
  cid ← in_pool next_cid_pub
  restore_warm r t vm_id cid dir

unfoldable pub handle_acquire : AcquireRequest → AcquireTrial → M AcquireResponse
unfolding acquire_warm acquire_pooled
handle_acquire r t s =
    let erofs = if is_empty r.erofs_path then none else some t.mtime in
    let (found, c) = has_snapshot r.image_key erofs s.manager.snapshots in
    let checked = record s { manager = record s.manager { snapshots = c } } in
    let warm = acquire_warm r t checked in
    let cold = acquire_pooled r t checked in
    let keyless = acquire_pooled r t s in
    if is_empty r.image_key then keyless else if found then warm else cold
