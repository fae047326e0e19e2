-- ===== src/Pool/Restore.antt =====
-- pool.rs `restore_one`, `create_base_snapshot` and `destroy_vm`, with what they call in
-- crates/daemon/src/vm_lifecycle.rs. Outcomes of the operating system, of Cloud Hypervisor and of
-- the guest agent are given with each call.
use containerd_cloudhypervis.Common.{
  join, ℕ, Bool, Option, none, some, ◌∷◌, ◌++◌, Text, codes, show_dec,
}
use containerd_cloudhypervis.Pool.State.{
  Pool, PoolVm, Host, M, ◌>>=◌, ◌>>◌, return, attempt, attempt_with, modify, read_config,
  next_cid_pub, pool_id, reap, remove_dir, create_dir, link_snapshot, spawn, write_pid,
  ch_not_ready, ch_api, no_agent,
}

-- How the steps of one restore come out.
pub record Trial : Type 0 where
  pub dir_made : Bool
  pub linked : Bool
  pub spawned : Option ℕ
  pub pid_written : Bool
  pub api_ready : Bool
  pub restored : Bool
  pub resumed : Bool
  pub agent_up : Bool

abbrev pub on_host : (Host → Host) → Pool → Pool
on_host f p = record p { host = f p.host }

unfoldable pub make_dir : Text → Bool → M (Unit {0})
make_dir d made = do attempt made create_dir; modify (on_host (λ h. record h { dirs = d ∷ h.dirs }))

-- vm_lifecycle::spawn_ch: the process runs before its pid is written to `ch.pid`.
unfoldable pub spawn_ch : Option ℕ → Bool → M ℕ
spawn_ch spawned written = do
  pid ← attempt_with spawned spawn
  modify (on_host (λ h. record h { processes = pid ∷ h.processes }))
  attempt written write_pid
  return pid

unfoldable pub restore_one : Trial → M PoolVm
unfolding make_dir spawn_ch next_cid_pub
restore_one t = do
  config ← read_config
  cid ← next_cid_pub
  let vm_id = pool_id config.daemon_pid cid
  let state_dir = join config.state_dir vm_id
  make_dir state_dir t.dir_made
  attempt t.linked link_snapshot
  ch_pid ← spawn_ch t.spawned t.pid_written
  attempt t.api_ready ch_not_ready
  attempt t.restored ch_api
  attempt t.resumed ch_api
  attempt t.agent_up no_agent
  return (record {
    vm_id = vm_id;
    api_socket = join state_dir (codes "api.sock");
    vsock_socket = join state_dir (codes "vsock.sock");
    cid = cid;
    ch_pid = ch_pid;
  })

-- vm_lifecycle::shutdown_and_destroy: SIGTERM, then SIGKILL after one second, then the directory.
unfoldable pub shutdown_and_destroy : ℕ → Text → Pool → Pool
shutdown_and_destroy pid dir =
    on_host (λ h. record h { processes = reap pid h.processes; dirs = remove_dir dir h.dirs })

-- `pid_file` is what `ch.pid` in the VM's directory holds, if it is there and holds a number.
unfoldable pub destroy_vm : Text → Option ℕ → Pool → Pool
unfolding shutdown_and_destroy
destroy_vm vm_id (some pid) p = shutdown_and_destroy pid (join p.state_dir vm_id) p
destroy_vm vm_id none p =
    on_host (λ h. record h { dirs = remove_dir (join p.state_dir vm_id) h.dirs }) p

pub record BaseTrial : Type 0 where
  pub base_dir_made : Bool
  pub dir_made : Bool
  pub spawned : Option ℕ
  pub pid_written : Bool
  pub api_ready : Bool
  pub booted : Bool
  pub agent_up : Bool
  pub paused : Bool
  pub snapshotted : Bool

unfoldable pub create_base_snapshot : BaseTrial → M (Unit {0})
unfolding make_dir spawn_ch next_cid_pub shutdown_and_destroy
create_base_snapshot t = do
  config ← read_config
  make_dir (join config.state_dir (codes "base-snapshot")) t.base_dir_made
  let vm_id = codes "base-snapshot-" ++ show_dec config.daemon_pid
  cid ← next_cid_pub
  let state_dir = join config.state_dir vm_id
  make_dir state_dir t.dir_made
  ch_pid ← spawn_ch t.spawned t.pid_written
  attempt t.api_ready ch_not_ready
  attempt t.booted ch_api
  attempt t.agent_up no_agent
  attempt t.paused ch_api
  attempt t.snapshotted ch_api
  modify (shutdown_and_destroy ch_pid state_dir)
