-- ===== src/Daemon/Requests.antt =====
-- api.rs: the handlers of the requests other than an acquire. A request is given by its fields; an
-- absent text is empty.
use containerd_cloudhypervis.Common.{
  ℕ, ◌%◌, ◌^◌, Bool, ◌||◌, not, unwrap_or, Option, none, some, List, [], ◌∷◌, Text, lookup, remove,
  length,
}
use containerd_cloudhypervis.Pool.Ops.{release, get_active}
use containerd_cloudhypervis.Daemon.State.{
  kill_container, wait_container, delete_container, Daemon, ids_required, not_active,
  vm_id_required, no_agent, agent_failed, M, ◌>>=◌, ◌>>◌, return, attempt, attempt_with, modify,
  gets, send, on_pool,
}
use containerd_cloudhypervis.Daemon.Vm.{RunTrial, is_empty, run_container_in_vm}

-- The result is the container's pid.
unfoldable pub handle_add_container : Text → Text → Text → RunTrial → M ℕ
unfolding run_container_in_vm
handle_add_container vm_id erofs_path container_id t = do
  attempt (not (is_empty vm_id || is_empty container_id)) ids_required
  found ← gets (λ s. get_active vm_id s.manager.pool)
  vm ← attempt_with found not_active
  ran ←
      run_container_in_vm
        (record {
          api_socket = vm.api_socket;
          vsock_socket = vm.vsock_socket;
          vm_id = vm_id;
          netns = [];
          erofs_path = erofs_path;
          container_id = container_id;
        })
        t
  return ran.0

-- `release` on the pool does not fail.
unfoldable pub handle_release : Text → Option ℕ → M (Unit {0})
handle_release vm_id pid_file = do
  attempt (not (is_empty vm_id)) vm_id_required
  modify (λ s. record s { agents = remove vm_id s.agents })
  modify (on_pool (release vm_id pid_file))

-- `signal` is 15 if the request has none, and is cut to 32 bits; the flag is the agent's answer.
unfoldable pub handle_kill_container : Text → Text → Option ℕ → Bool → M (Unit {0})
handle_kill_container vm_id container_id signal answered = do
  found ← gets (λ s. lookup vm_id s.agents)
  agent ← attempt_with found no_agent
  send (kill_container agent container_id (signal_of signal))
  attempt answered agent_failed
  where
    signal_of : Option ℕ → ℕ
    signal_of none = 15
    signal_of (some n) = n % 2 ^ 32

-- `answer` is the exit status with the time that the agent gives; a request that fails answers 137.
unfoldable pub handle_wait_container : Text → Text → Option (ℕ × Text) → M (ℕ × Text)
handle_wait_container vm_id container_id answer = do
  found ← gets (λ s. lookup vm_id s.agents)
  agent ← attempt_with found no_agent
  send (wait_container agent container_id)
  return (unwrap_or answer (137, []))

unfoldable pub delete_at : Text → Option Text → Daemon → Daemon
delete_at container_id none s = s
delete_at container_id (some agent) s = record s {
  sent = delete_container agent container_id ∷ s.sent;
}

-- It answers `ok` in any case.
unfoldable pub handle_delete_container : Text → Text → Daemon → Daemon
unfolding delete_at
handle_delete_container vm_id container_id s = delete_at container_id (lookup vm_id s.agents) s

pub record StatusResponse : Type 0 where
  pub pool_ready : ℕ
  pub active_vms : ℕ
  pub shadow_vms_running : ℕ
  pub snapshot_keys : List Text

abbrev keys_of {ℓ} : {V : Type ℓ} → List (Text × V) → List Text
keys_of [] = []
keys_of ((k, v) ∷ m) = k ∷ keys_of m

unfoldable pub handle_status : Daemon → StatusResponse
handle_status s = record {
  pool_ready = length s.manager.pool.ready;
  active_vms = s.manager.pool.active_count;
  shadow_vms_running = length s.tasks.active_shadows;
  snapshot_keys = keys_of s.manager.snapshots.entries;
}
