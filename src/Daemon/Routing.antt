-- ===== src/Daemon/Routing.antt =====
-- Where the handlers of api.rs send their requests.
use containerd_cloudhypervis.Common.{
  ℕ, ◌≡◌, ◌≢◌, refl, inl, inr, Bool, Option, some, [], ◌∷◌, Text, ok, err, lookup, arith, Distinct,
  lookup-remove_self, lookup-insert, Result-cases, unwrap_or,
}
use containerd_cloudhypervis.Pool.State.{PoolVm}
use containerd_cloudhypervis.Pool.Restore.{destroy_vm}
use containerd_cloudhypervis.Pool.Ops.{release, get_active}
use containerd_cloudhypervis.Daemon.State.{Daemon, add_disk, run_container, no_agent, not_active}
use containerd_cloudhypervis.Daemon.Vm.{
  RunTrial, RunContainerParams, disk_id, run_container_in_vm, agent_of, network_if, configure_if,
}
use containerd_cloudhypervis.Daemon.Requests.{
  handle_add_container, handle_release, handle_kill_container, handle_wait_container,
  handle_delete_container, delete_at,
}
use containerd_cloudhypervis.Daemon.Effects.{run_container_in_vm-Leaves}

run_quiet :
    (p : RunContainerParams) (t : RunTrial) (s : Daemon) (ran : ℕ × Text)
    → p.netns ≡ []
    → (run_container_in_vm p t s).0 ≡ ok ran
    → let after = (run_container_in_vm p t s).1 in
      let agent = unwrap_or (lookup p.vm_id s.agents) p.vsock_socket in
      (after.sent
        ≡ run_container agent p.container_id
          ∷ add_disk p.api_socket p.erofs_path (disk_id p.container_id)
          ∷ s.sent)
      × (lookup p.vm_id after.agents ≡ some agent)
      × (t.started ≡ some ran.0)
unfolding run_container_in_vm network_if agent_of configure_if
run_quiet p t s ran e h = ground (arith, e, lookup-insert p.vm_id p.vm_id p.vsock_socket s.agents)

-- A container that is added to an active VM has its disk plugged into that VM, and is then run by the
-- agent on the VM's connection, the one that is kept or a new one to the VM's own socket, which is
-- kept from then on. The pid in the answer is the agent's, and the pool stays as it was.
pub handle_add_container-sent :
    (vm_id erofs container_id : Text) (t : RunTrial) (s : Daemon) (vm : PoolVm) (pid : ℕ)
    → get_active vm_id s.manager.pool ≡ some vm
    → (handle_add_container vm_id erofs container_id t s).0 ≡ ok pid
    → let after = (handle_add_container vm_id erofs container_id t s).1 in
      let agent = unwrap_or (lookup vm_id s.agents) vm.vsock_socket in
      (after.sent
        ≡ run_container agent container_id
          ∷ add_disk vm.api_socket erofs (disk_id container_id)
          ∷ s.sent)
      × (lookup vm_id after.agents ≡ some agent)
      × (t.started ≡ some pid)
      × (after.manager ≡ s.manager)
unfolding handle_add_container
handle_add_container-sent vm_id erofs container_id t s vm pid e h =
    let p : RunContainerParams = record {
      api_socket = vm.api_socket;
      vsock_socket = vm.vsock_socket;
      vm_id = vm_id;
      netns = [];
      erofs_path = erofs;
      container_id = container_id;
    } in
    elim (Result-cases (run_container_in_vm p t s).0) [
      | inl (ran, g) ↦
          let done = run_quiet p t s ran refl g in
          let kept = (run_container_in_vm-Leaves p t).leaves s in ground (arith, e, g, done, kept)
      | inr (x, g) ↦ absurd (ground (arith, e, g))
    ]

-- After the release of a VM, in a daemon with no key twice in its tables, nothing more is sent to
-- it: a kill and a wait find no agent, a container cannot be added, and a delete answers without a
-- request. The names of the VM and of the container are not empty.
pub handle_release-closes :
    (vm_id container_id erofs : Text) (pid_file : Option ℕ) (t : RunTrial) (s : Daemon)
    (signal : Option ℕ) (answered : Bool) (answer : Option (ℕ × Text))
    → vm_id ≢ []
    → container_id ≢ []
    → Distinct s.agents
    → Distinct s.manager.pool.active
    → let after = (handle_release vm_id pid_file s).1 in
      ((handle_release vm_id pid_file s).0 ≡ ok tt)
      × (handle_kill_container vm_id container_id signal answered after ≡ (err no_agent, after))
      × (handle_wait_container vm_id container_id answer after ≡ (err no_agent, after))
      × (handle_add_container vm_id erofs container_id t after ≡ (err not_active, after))
      × (handle_delete_container vm_id container_id after ≡ after)
unfolding handle_release handle_kill_container handle_wait_container handle_add_container
    handle_delete_container delete_at get_active release destroy_vm
handle_release-closes [] container_id erofs pid_file t s signal answered answer n m d e =
    absurd (n refl)
handle_release-closes (c ∷ vm_id) [] erofs pid_file t s signal answered answer n m d e =
    absurd (m refl)
handle_release-closes (c ∷ vm_id) (x ∷ xs) erofs pid_file t s signal answered answer n m d e =
    let closed = lookup-remove_self (c ∷ vm_id) s.agents d in
    let gone = lookup-remove_self (c ∷ vm_id) s.manager.pool.active e in
    ground (arith, closed, gone)
