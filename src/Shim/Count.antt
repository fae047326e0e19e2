-- ===== src/Shim/Count.antt =====
-- instance.rs `delete`: the count of the containers of a pod, and when it releases the VM.
use containerd_cloudhypervis.Common.{
  ℕ, ◌+◌, ◌-◌, ◌^◌, ◌≤◌, ◌<◌, ◌≡◌, sym, subst, none, some, List, [], ◌∷◌, Text, lookup, arith,
  length, Distinct, lookup-update, lookup-remove_self, update-Distinct,
}
use containerd_cloudhypervis.Shim.Instance.{
  SharedVmState, Request, acquire_sandbox, release_sandbox, add_container, kill_container,
  delete_container, cleanup_tap, Instance, Shim, usize,
}
use containerd_cloudhypervis.Shim.Ops.{set_exit, delete, delete_last, delete_one}

-- The names of the VMs that were released, newest first.
unfoldable pub releases : List Request → List Text
releases [] = []
releases (acquire_sandbox n k e c ∷ rs) = releases rs
releases (release_sandbox v ∷ rs) = v ∷ releases rs
releases (add_container v e c ∷ rs) = releases rs
releases (kill_container v c g ∷ rs) = releases rs
releases (delete_container v c ∷ rs) = releases rs
releases (cleanup_tap n t ∷ rs) = releases rs

-- The pod is known, with this count and this VM.
pub record Holds (sandbox_id : Text) (n : ℕ) (vm_id : Text) (s : Shim) : Type 0 where
  pub vm : SharedVmState
  pub found : lookup sandbox_id s.vms ≡ some vm
  pub counted : vm.container_count ≡ n
  pub named : vm.daemon_vm_id ≡ vm_id
  pub distinct : Distinct s.vms

abbrev pub uncount : SharedVmState → SharedVmState
uncount v = record v { container_count = usize (v.container_count + 2 ^ 64 - 1) }

pub delete-Holds :
    (i : Instance) (n : ℕ) (vm_id : Text) (s : Shim)
    → 1 < n
    → n < 2 ^ 64
    → Holds i.sandbox_id n vm_id s
    → Holds i.sandbox_id (n - 1) vm_id (delete i s)
unfolding delete delete_one set_exit
delete-Holds i n vm_id s l h p = record {
  vm = uncount p.vm;
  found = ground (arith, p.found, p.counted, lookup-update i.sandbox_id i.sandbox_id uncount s.vms);
  counted = ground (arith, p.counted);
  named = p.named;
  distinct =
      ground (arith, p.found, p.counted, update-Distinct i.sandbox_id uncount s.vms p.distinct);
}

pub delete-releases :
    (i : Instance) (n : ℕ) (vm_id : Text) (s : Shim)
    → 1 < n
    → Holds i.sandbox_id n vm_id s
    → releases (delete i s).requests ≡ releases s.requests
unfolding delete delete_one set_exit releases
delete-releases i n vm_id s l p = ground (arith, p.found, p.counted)

pub delete-last :
    (i : Instance) (vm_id : Text) (s : Shim)
    → Holds i.sandbox_id 1 vm_id s
    → (lookup i.sandbox_id (delete i s).vms ≡ none)
      × (releases (delete i s).requests ≡ vm_id ∷ releases s.requests)
unfolding delete delete_last set_exit releases
delete-last i vm_id s p =
    ground (arith, p.found, p.counted, p.named, lookup-remove_self i.sandbox_id s.vms p.distinct)

abbrev pub member : Text → Text → Instance
member sandbox_id id = record { id = id; sandbox_id = sandbox_id }

abbrev pub delete_all : Text → List Text → Shim → Shim
delete_all sandbox_id [] s = s
delete_all sandbox_id (id ∷ ids) s = delete_all sandbox_id ids (delete (member sandbox_id id) s)

-- While fewer instances of a known pod are deleted than are counted, nothing is released. With the
-- last one the VM is released, once, and the pod is forgotten. The count is positive and below
-- 2^64.
pub delete_all-releases :
    (sandbox_id vm_id : Text) (ids : List Text) (n : ℕ) (s : Shim)
    → length ids ≤ n
    → 0 < n
    → n < 2 ^ 64
    → Holds sandbox_id n vm_id s
    → let after = delete_all sandbox_id ids s in
      (length ids < n → releases after.requests ≡ releases s.requests)
      × (length ids ≡ n
          → (lookup sandbox_id after.vms ≡ none)
            × (releases after.requests ≡ vm_id ∷ releases s.requests))
delete_all-releases sandbox_id vm_id [] n s l k h p = ground arith
delete_all-releases sandbox_id vm_id (id ∷ []) n s l k h p = (
  (λ more. delete-releases (member sandbox_id id) n vm_id s more p),
  (λ e.
      delete-last (member sandbox_id id) vm_id s
        (subst (λ m. Holds sandbox_id m vm_id s) (sym e) p)),
)
delete_all-releases sandbox_id vm_id (id ∷ j ∷ ids) n s l k h p =
    let i = member sandbox_id id in
    let kept = delete-releases i n vm_id s (omega arith) p in
    let left = delete-Holds i n vm_id s (omega arith) h p in
    let next =
      delete_all-releases sandbox_id vm_id (j ∷ ids) (n - 1) (delete i s) (omega arith)
        (omega arith) (omega arith) left in
    ground (arith, kept, next)
