-- ===== src/Shim/Faults.antt =====
-- instance.rs: starts that fail, and exits that are reported once.
use containerd_cloudhypervis.Common.{
  ℕ, ◌-◌, ◌≡◌, ap, subst, ◌∙◌, Option, none, some, ◌∷◌, Text, err, lookup, arith,
}
use containerd_cloudhypervis.Shim.Instance.{Instance, Shim, Error}
use containerd_cloudhypervis.Shim.Ops.{
  start_container, StartTrial, add_to_vm, acquire_vm, set_exit, exit_watcher, delete, delete_last,
  delete_one, kill, kill_sandbox,
}
use containerd_cloudhypervis.Shim.Count.{
  releases, Holds, member, delete-Holds, delete-releases, delete-last,
}

failed-vms :
    (i : Instance) (t : StartTrial) (s : Shim) {e : Error}
    → (start_container i t s).0 ≡ err e
    → ((start_container i t s).1.vms ≡ s.vms)
      × (releases (start_container i t s).1.requests ≡ releases s.requests)
unfolding start_container add_to_vm acquire_vm releases
failed-vms i t s h = ground arith

failed-Holds :
    (i : Instance) (t : StartTrial) (n : ℕ) (vm_id : Text) (s : Shim) {e : Error}
    → (start_container i t s).0 ≡ err e
    → Holds i.sandbox_id n vm_id s
    → Holds i.sandbox_id n vm_id (start_container i t s).1
failed-Holds i t n vm_id s h p =
    let same = (failed-vms i t s h).0 in
    record {
      vm = p.vm;
      found = rw same p.found;
      counted = p.counted;
      named = p.named;
      distinct = rw same p.distinct;
    }

abbrev pub start_and_delete : Instance → StartTrial → Shim → Shim
start_and_delete i t s = delete i (start_container i t s).1

-- A container whose start fails is not counted, yet its deletion is: when two starts fail in a pod
-- with one running container, and both failed containers are deleted, the VM is released and the pod
-- forgotten although the container that runs was not deleted.
pub failed_starts-release :
    (sandbox_id b c : Text) (t u : StartTrial) (vm_id : Text) (s : Shim) {e f : Error}
    → Holds sandbox_id 2 vm_id s
    → let once = start_and_delete (member sandbox_id b) t s in
      (start_container (member sandbox_id b) t s).0 ≡ err e
      → (start_container (member sandbox_id c) u once).0 ≡ err f
      → let after = start_and_delete (member sandbox_id c) u once in
        (lookup sandbox_id after.vms ≡ none)
        × (releases after.requests ≡ vm_id ∷ releases s.requests)
failed_starts-release sandbox_id b c t u vm_id s p h k =
    let i = member sandbox_id b in
    let j = member sandbox_id c in
    let failed = (start_container i t s).1 in
    let once = delete i failed in
    let held = failed-Holds i t 2 vm_id s h p in
    let one = delete-Holds i 2 vm_id failed (omega arith) (omega arith) held in
    let two : 2 - 1 ≡ 1 = omega arith in
    let left = subst (λ n. Holds sandbox_id n vm_id once) two one in
    let last =
      delete-last j vm_id (start_container j u once).1 (failed-Holds j u 1 vm_id once k left) in
    let unreleased =
      (failed-vms j u once k).1
      ∙ delete-releases i 2 vm_id failed (omega arith) held
      ∙ (failed-vms i t s h).1 in
    (last.0, last.1 ∙ ap (λ vs. vm_id ∷ vs) unreleased)

-- An exit is reported once: the first code that reaches the exit cell stays there, whatever the
-- watcher, a deletion or a kill of the same instance bring later.
exit_once :
    (i : Instance) (code : ℕ) (waited : Option ℕ) (signal : ℕ) (s : Shim)
    → lookup i.id s.exits ≡ some code
    → (lookup i.id (exit_watcher i.id waited s).exits ≡ some code)
      × (lookup i.id (delete i s).exits ≡ some code)
      × (lookup i.id (kill i signal s).exits ≡ some code)
unfolding exit_watcher set_exit delete delete_last delete_one kill kill_sandbox
exit_once i code waited signal s h = (ground arith, ground arith, ground arith)
