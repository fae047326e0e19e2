-- ===== src/Shim/Races.antt =====
-- instance.rs `start_container`: two containers of a pod that start at the same time.
use containerd_cloudhypervis.Common.{
  ℕ, ◌+◌, ◌≡◌, some, List, [], ◌∷◌, Text, ok, lookup, insert, update, arith, lookup-insert,
  lookup-update,
}
use containerd_cloudhypervis.Shim.Instance.{
  SharedVmState, Request, acquire_sandbox, release_sandbox, add_container, kill_container,
  delete_container, cleanup_tap, Instance, Shim,
}
use containerd_cloudhypervis.Shim.Ops.{StartTrial, AcquiredVm, acquire_vm, with_vm, rest_of_start}
use containerd_cloudhypervis.Shim.Count.{member}
use containerd_cloudhypervis.Shim.Pod.{counted_up}

-- How many VMs were asked for.
unfoldable pub acquires : List Request → ℕ
acquires [] = 0
acquires (acquire_sandbox n k e c ∷ rs) = 1 + acquires rs
acquires (release_sandbox v ∷ rs) = acquires rs
acquires (add_container v e c ∷ rs) = acquires rs
acquires (kill_container v c g ∷ rs) = acquires rs
acquires (delete_container v c ∷ rs) = acquires rs
acquires (cleanup_tap n t ∷ rs) = acquires rs

rest-acquires :
    (i : Instance) (t : StartTrial) (a : AcquiredVm) (vm : SharedVmState) (s : Shim) (pid : ℕ)
    → vm.daemon_vm_id ≡ []
    → t.acquired ≡ some a
    → (rest_of_start i t vm s).0 ≡ ok pid
    → let after = (rest_of_start i t vm s).1 in
      (after.vms ≡ update i.sandbox_id counted_up (insert i.sandbox_id (with_vm a vm) s.vms))
      × (acquires after.requests ≡ acquires s.requests + 1)
unfolding rest_of_start acquire_vm acquires
rest-acquires i t a vm s pid n e h = ground arith

-- When two starts have both read the state of a pod that has no VM yet, and then finish one after the
-- other, two VMs are acquired; the pod keeps only the second, so that nothing will release the first,
-- and it counts one of the two containers.
pub starts_race :
    (sandbox_id x y : Text) (t u : StartTrial) (a b : AcquiredVm) (vm : SharedVmState) (s : Shim)
    (pid pid' : ℕ)
    → vm.daemon_vm_id ≡ []
    → t.acquired ≡ some a
    → u.acquired ≡ some b
    → let one = (rest_of_start (member sandbox_id x) t vm s).1 in
      let two = (rest_of_start (member sandbox_id y) u vm one).1 in
      (rest_of_start (member sandbox_id x) t vm s).0 ≡ ok pid
      → (rest_of_start (member sandbox_id y) u vm one).0 ≡ ok pid'
      → (lookup sandbox_id two.vms ≡ some (counted_up (with_vm b vm)))
        × (acquires two.requests ≡ acquires s.requests + 2)
starts_race sandbox_id x y t u a b vm s pid pid' n e f h k =
    let one = (rest_of_start (member sandbox_id x) t vm s).1 in
    let first = rest-acquires (member sandbox_id x) t a vm s pid n e h in
    let second = rest-acquires (member sandbox_id y) u b vm one pid' n f k in
    let vms = insert sandbox_id (with_vm b vm) one.vms in
    (
      rw second.0 (
          ground (
            arith,
            lookup-update sandbox_id sandbox_id counted_up vms,
            lookup-insert sandbox_id sandbox_id (with_vm b vm) one.vms,
          )),
      omega (arith, first.1, second.1),
    )
