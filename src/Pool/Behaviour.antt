-- ===== src/Pool/Behaviour.antt =====
-- What each operation of pool.rs does for its caller.
use containerd_cloudhypervis.Common.{
  ℕ, ◌+◌, ◌^◌, ◌<◌, ◌≡◌, ◌≢◌, refl, true, false, ◌&&◌, List, [], ◌∷◌, Option, none, some, Text, ok,
  err, arith, length, All, lookup, is_some, if◌then◌else◌, lookup-insert, lookup-remove_self,
  lookup-remove_ne, length-remove, Text-discrete, ite,
}
use containerd_cloudhypervis.Pool.State.{Pool, PoolVm, Error, reap}
use containerd_cloudhypervis.Pool.Restore.{Trial, restore_one, destroy_vm}
use containerd_cloudhypervis.Pool.Ops.{
  acquire, acquire_restored, register_active, release, get_active,
}
use containerd_cloudhypervis.Pool.Fresh.{Frame, restore_one-Frame, restore_one_vm}
use containerd_cloudhypervis.Pool.Invariant.{Inv}

-- As long as the CID counter has not run out, a caller that gets a VM from `acquire` finds exactly
-- that VM registered under its name, and every other registered VM as before.
pub acquire-get_active :
    (t : Trial) (p q : Pool) (vm : PoolVm) (j : Text)
    → p.next_cid + 1 < 2 ^ 64
    → acquire t p ≡ (ok vm, q)
    → get_active j q ≡ ite (Text-discrete vm.vm_id j) (some vm) (get_active j p)
unfolding acquire get_active register_active acquire_restored
acquire-get_active t p q vm j h e = by_ready p.ready refl
  where
    by_ready :
        (vs : List PoolVm)
        → p.ready ≡ vs
        → lookup j q.active ≡ ite (Text-discrete vm.vm_id j) (some vm) (lookup j p.active)
    by_ready [] r = ground (arith, restore_one-Frame t p h, lookup-insert vm.vm_id j vm p.active)
    by_ready (x ∷ rest) r = ground (arith, lookup-insert vm.vm_id j vm p.active)

-- In a pool that satisfies the invariant, the VM that `acquire` hands out was not active before.
pub acquire-was_free :
    (t : Trial) (p q : Pool) (vm : PoolVm)
    → Inv p
    → acquire t p ≡ (ok vm, q)
    → get_active vm.vm_id p ≡ none
unfolding acquire get_active acquire_restored
acquire-was_free t p q vm v e = by_ready p.ready refl
  where
    by_ready : (vs : List PoolVm) → p.ready ≡ vs → lookup vm.vm_id p.active ≡ none
    by_ready [] r =
        let named = restore_one_vm t p vm (ground arith) in
        rw named.0 (v.unused p.next_cid (omega arith))
    by_ready (x ∷ rest) r =
        let free : All (λ (w : PoolVm). lookup w.vm_id p.active ≡ none) (x ∷ rest) =
          rw r at v.absent in
        ground arith

-- As long as the CID counter has not run out, `acquire` fails only if no VM is idle and the
-- restore fails; then the lists and the count of active VMs are as they were.
pub acquire_fails :
    (t : Trial) (p : Pool) {e : Error}
    → p.next_cid + 1 < 2 ^ 64
    → (acquire t p).0 ≡ err e
    → (p.ready ≡ []) × ((restore_one t p).0 ≡ err e) × Frame p (p.next_cid + 1) (acquire t p).1
unfolding acquire acquire_restored
acquire_fails t p h e = ground (arith, restore_one-Frame t p h)

-- In a pool that satisfies the invariant and has fewer than 2^64 active VMs, a name is unknown
-- after its `release`, whether it was active or not; every other active VM and the idle ones stay,
-- and the count falls by one exactly if the VM was active.
pub release-forgets :
    (vm_id : Text) (pid_file : Option ℕ) (p : Pool)
    → Inv p
    → length p.active < 2 ^ 64
    → let q = release vm_id pid_file p in
      (get_active vm_id q ≡ none)
      × ((j : Text) → vm_id ≢ j → get_active j q ≡ get_active j p)
      × (q.ready ≡ p.ready)
      × (q.active_count + (if is_some (get_active vm_id p) then 1 else 0) ≡ p.active_count)
unfolding release destroy_vm get_active
release-forgets vm_id none p v h = (
  lookup-remove_self vm_id p.active v.distinct,
  (λ j n. lookup-remove_ne vm_id j p.active n),
  refl,
  ground (arith, v.counted, length-remove vm_id p.active),
)
release-forgets vm_id (some pid) p v h = (
  lookup-remove_self vm_id p.active v.distinct,
  (λ j n. lookup-remove_ne vm_id j p.active n),
  refl,
  ground (arith, v.counted, length-remove vm_id p.active),
)

reap_gone : (pid : ℕ) (xs : List ℕ) → All (λ x. x ≢ pid) (reap pid xs)
unfolding reap
reap_gone pid [] = tt
reap_gone pid (x ∷ xs) = ground (arith, reap_gone pid xs)

-- As long as the CID counter has not run out, a restore that fails after Cloud Hypervisor was
-- started leaves that process running, and the lists of the pool are as before, so neither the
-- idle nor the active VMs name it.
pub restore_one_leaks :
    (t : Trial) (p : Pool) (pid : ℕ)
    → p.next_cid + 1 < 2 ^ 64
    → (t.dir_made && t.linked) ≡ true
    → t.spawned ≡ some pid
    → (t.pid_written && t.api_ready && t.restored && t.resumed && t.agent_up) ≡ false
    → let (r, q) = restore_one t p in
      ((vm : PoolVm) → r ≢ ok vm)
      × (q.host.processes ≡ pid ∷ p.host.processes)
      × Frame p (p.next_cid + 1) q
unfolding restore_one
restore_one_leaks t p pid h d s f = ground (arith)

-- In a pool that satisfies the invariant, `release` stops the VM whose name it is given even if
-- that VM is idle: the next `acquire` hands it out, although its process is gone.
pub release_idle :
    (vm : PoolVm) (rest : List PoolVm) (p : Pool) (t : Trial)
    → p.ready ≡ vm ∷ rest
    → Inv p
    → let q = release vm.vm_id (some vm.ch_pid) p in
      ((acquire t q).0 ≡ ok vm) × All (λ x. x ≢ vm.ch_pid) q.host.processes
unfolding release destroy_vm acquire
release_idle vm rest p t e v = (ground arith, reap_gone vm.ch_pid p.host.processes)
