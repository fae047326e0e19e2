-- ===== src/Shim/Pod.antt =====
-- The life of a pod in instance.rs: when its VM is released.
use containerd_cloudhypervis.Common.{
  ℕ, suc, ◌+◌, ◌^◌, ◌≤◌, ◌<◌, ◌≡◌, ◌≢◌, refl, sym, subst, ◌∙◌, Option, none, some, List, [], ◌∷◌,
  Text, ok, lookup, insert, update, arith, length, Distinct, lookup-update, lookup-insert,
  insert-Distinct, update-Distinct,
}
use containerd_cloudhypervis.Shim.Instance.{SharedVmState, Instance, Shim, usize}
use containerd_cloudhypervis.Shim.Ops.{
  start_sandbox, start_container, StartTrial, AcquiredVm, add_to_vm, acquire_vm, with_vm, new_vm,
}
use containerd_cloudhypervis.Shim.Count.{releases, Holds, member, delete_all, delete_all-releases}

abbrev pub counted_up : SharedVmState → SharedVmState
counted_up v = record v { container_count = usize (v.container_count + 1) }

add-found :
    (i : Instance) (t : StartTrial) (vm : SharedVmState) (s : Shim) (pid : ℕ)
    → lookup i.sandbox_id s.vms ≡ some vm
    → vm.daemon_vm_id ≢ []
    → (start_container i t s).0 ≡ ok pid
    → let after = (start_container i t s).1 in
      (after.vms ≡ update i.sandbox_id counted_up s.vms)
      × (releases after.requests ≡ releases s.requests)
      × (t.added ≡ some pid)
unfolding start_container add_to_vm releases
add-found i t vm s pid f ne h = ground arith

add-Holds :
    (i : Instance) (t : StartTrial) (n : ℕ) (vm_id : Text) (s : Shim) (pid : ℕ)
    → vm_id ≢ []
    → n + 1 < 2 ^ 64
    → Holds i.sandbox_id n vm_id s
    → (start_container i t s).0 ≡ ok pid
    → Holds i.sandbox_id (n + 1) vm_id (start_container i t s).1
add-Holds i t n vm_id s pid ne l p h =
    let started = add-found i t p.vm s pid p.found (λ e. ne (sym p.named ∙ e)) h in
    record {
      vm = counted_up p.vm;
      found =
          rw started.0
            (ground (arith, p.found, lookup-update i.sandbox_id i.sandbox_id counted_up s.vms));
      counted = ground (arith, p.counted);
      named = p.named;
      distinct = rw started.0 (update-Distinct i.sandbox_id counted_up s.vms p.distinct);
    }

-- The containers that start after the first, each with the outcomes of its start.
abbrev pub start_all : Text → List (Text × StartTrial) → Shim → Shim
start_all sandbox_id [] s = s
start_all sandbox_id ((id, t) ∷ cs) s =
    start_all sandbox_id cs (start_container (member sandbox_id id) t s).1

abbrev pub AllStart : Text → List (Text × StartTrial) → Shim → Type 0
AllStart sandbox_id [] s = Unit {0}
AllStart sandbox_id ((id, t) ∷ cs) s =
    ((pid : ℕ) × ((start_container (member sandbox_id id) t s).0 ≡ ok pid))
    × AllStart sandbox_id cs (start_container (member sandbox_id id) t s).1

start_all-Holds :
    (sandbox_id vm_id : Text) (cs : List (Text × StartTrial)) (n : ℕ) (s : Shim)
    → vm_id ≢ []
    → n + length cs < 2 ^ 64
    → Holds sandbox_id n vm_id s
    → AllStart sandbox_id cs s
    → Holds sandbox_id (n + length cs) vm_id (start_all sandbox_id cs s)
      × (releases (start_all sandbox_id cs s).requests ≡ releases s.requests)
start_all-Holds sandbox_id vm_id [] n s ne l p a =
    (subst (λ m. Holds sandbox_id m vm_id s) (omega arith) p, refl)
start_all-Holds sandbox_id vm_id ((id, t) ∷ cs) n s ne l p a =
    let i = member sandbox_id id in
    let after = (start_container i t s).1 in
    let held = add-Holds i t n vm_id s a.0.0 ne (omega arith) p a.0.1 in
    let kept = add-found i t p.vm s a.0.0 p.found (λ e. ne (sym p.named ∙ e)) a.0.1 in
    let rest = start_all-Holds sandbox_id vm_id cs (n + 1) after ne (omega arith) held a.1 in
    let assoc : n + 1 + length cs ≡ n + suc (length cs) = omega arith in
    (
      subst (λ m. Holds sandbox_id m vm_id (start_all sandbox_id cs after)) assoc rest.0,
      rest.1 ∙ kept.1,
    )

first-found :
    (i : Instance) (t : StartTrial) (a : AcquiredVm) (vm : SharedVmState) (s : Shim) (pid : ℕ)
    → lookup i.sandbox_id s.vms ≡ some vm
    → vm.daemon_vm_id ≡ []
    → t.acquired ≡ some a
    → (start_container i t s).0 ≡ ok pid
    → let after = (start_container i t s).1 in
      (after.vms ≡ update i.sandbox_id counted_up (insert i.sandbox_id (with_vm a vm) s.vms))
      × (releases after.requests ≡ releases s.requests)
unfolding start_container acquire_vm releases
first-found i t a vm s pid f n e h = ground arith

first-Holds :
    (i : Instance) (t : StartTrial) (a : AcquiredVm) (s : Shim) (pid : ℕ)
    → Holds i.sandbox_id 1 [] s
    → t.acquired ≡ some a
    → (start_container i t s).0 ≡ ok pid
    → Holds i.sandbox_id 2 a.vm_id (start_container i t s).1
unfolding with_vm
first-Holds i t a s pid p e h =
    let started = first-found i t a p.vm s pid p.found p.named e h in
    let vms = insert i.sandbox_id (with_vm a p.vm) s.vms in
    let there = lookup-insert i.sandbox_id i.sandbox_id (with_vm a p.vm) s.vms in
    record {
      vm = counted_up (with_vm a p.vm);
      found =
          rw started.0
            (ground (arith, there, lookup-update i.sandbox_id i.sandbox_id counted_up vms));
      counted = ground (arith, p.counted);
      named = refl;
      distinct = rw started.0 (
          update-Distinct i.sandbox_id counted_up vms
            (insert-Distinct i.sandbox_id (with_vm a p.vm) s.vms p.distinct));
    }

sandbox-Holds :
    (id socket : Text) (netns cgroups : Option Text) (shim_pid : ℕ) (s : Shim)
    → Distinct s.vms
    → Holds id 1 [] (start_sandbox id netns cgroups (some socket) shim_pid s).1
unfolding start_sandbox new_vm
sandbox-Holds id socket netns cgroups shim_pid s d = record {
  vm = new_vm netns cgroups socket;
  found = ground (arith, lookup-insert id id (new_vm netns cgroups socket) s.vms);
  counted = refl;
  named = refl;
  distinct = insert-Distinct id (new_vm netns cgroups socket) s.vms d;
}

-- The whole life of a pod with fewer than 2^64 containers that all start, in a shim with no pod in
-- its table twice: the VM acquired with the first container, which has a name, is kept however the
-- sandbox and the containers are deleted, until as many are deleted as there are; then it is
-- released exactly once, and the pod is forgotten.
pub pod_life :
    (id socket : Text) (netns cgroups : Option Text) (shim_pid : ℕ) (first : Text) (t : StartTrial)
    (a : AcquiredVm) (cs : List (Text × StartTrial)) (gone : List Text) (pid : ℕ) (s : Shim)
    → Distinct s.vms
    → a.vm_id ≢ []
    → t.acquired ≡ some a
    → 2 + length cs < 2 ^ 64
    → let pod = (start_sandbox id netns cgroups (some socket) shim_pid s).1 in
      let up = (start_container (member id first) t pod).1 in
      (start_container (member id first) t pod).0 ≡ ok pid
      → AllStart id cs up
      → length gone ≤ 2 + length cs
      → let after = delete_all id gone (start_all id cs up) in
        (length gone < 2 + length cs → releases after.requests ≡ releases s.requests)
        × (length gone ≡ 2 + length cs
            → (lookup id after.vms ≡ none)
              × (releases after.requests ≡ a.vm_id ∷ releases s.requests))
pod_life id socket netns cgroups shim_pid first t a cs gone pid s d ne e l h all k =
    let pod = (start_sandbox id netns cgroups (some socket) shim_pid s).1 in
    let same : releases pod.requests ≡ releases s.requests = unfold start_sandbox in refl in
    let one = sandbox-Holds id socket netns cgroups shim_pid s d in
    let two = first-Holds (member id first) t a pod pid one e h in
    let kept = first-found (member id first) t a one.vm pod pid one.found one.named e h in
    let up = (start_container (member id first) t pod).1 in
    let full = start_all-Holds id a.vm_id cs 2 up ne l two all in
    let ended =
      delete_all-releases id a.vm_id gone (2 + length cs) (start_all id cs up) k (omega arith) l
        full.0 in
    ground (arith, same, kept.1, full.1, ended)
