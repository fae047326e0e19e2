-- ===== src/Pool/Preserve.antt =====
-- Every operation of pool.rs keeps the invariant.
use containerd_cloudhypervis.Common.{
  ℕ, suc, ◌+◌, ◌-◌, ◌^◌, ◌<◌, ◌≡◌, refl, sym, ap, ◌∙◌, subst, List, [], ◌∷◌, Option, none, some,
  Text, Result, ok, err, arith, lookup, remove, is_some, if◌then◌else◌, lookup-remove-none,
  remove-Distinct, length-remove,
}
use containerd_cloudhypervis.Pool.State.{Pool, PoolVm, Error, pool_id, u64}
use containerd_cloudhypervis.Pool.Restore.{Trial, restore_one, destroy_vm}
use containerd_cloudhypervis.Pool.Ops.{
  push_ready, push_restored, register_active, acquire, acquire_restored, release, replenish_one,
}
use containerd_cloudhypervis.Pool.Fresh.{
  Frame, pool_id-injective, restore_one-Frame, restore_one_vm,
}
use containerd_cloudhypervis.Pool.Invariant.{
  Below, Named, Absent, Inv, Below-mono, Absent-remove, Named-ne, register_active-Inv, Frame-Inv,
}

removed-Inv :
    (vm_id : Text) (p : Pool)
    → Inv p
    → Inv (record p {
      active = remove vm_id p.active;
      active_count =
          if is_some (lookup vm_id p.active)
          then u64 (p.active_count + 2 ^ 64 - 1)
          else p.active_count;
    })
removed-Inv vm_id p v = record {
  counted = ground (arith, v.counted, length-remove vm_id p.active);
  distinct = remove-Distinct vm_id p.active v.distinct;
  named = v.named;
  below = v.below;
  absent = Absent-remove vm_id p.active p.ready v.absent;
  unused = λ c h. lookup-remove-none vm_id (pool_id p.daemon_pid c) p.active (v.unused c h);
}

pub destroy_vm-Frame :
    (vm_id : Text) (pid_file : Option ℕ) (p : Pool)
    → Frame p p.next_cid (destroy_vm vm_id pid_file p)
unfolding destroy_vm
destroy_vm-Frame vm_id none p = ground arith
destroy_vm-Frame vm_id (some pid) p = ground arith

pub release-Inv :
    (vm_id : Text) (pid_file : Option ℕ) (p : Pool) → Inv p → Inv (release vm_id pid_file p)
unfolding release
release-Inv vm_id pid_file p v =
    Frame-Inv p.next_cid _ _ (destroy_vm-Frame vm_id pid_file _) (omega arith)
      (removed-Inv vm_id p v)

pub restore_one-Inv :
    (t : Trial) (p : Pool) → p.next_cid + 1 < 2 ^ 64 → Inv p → Inv (restore_one t p).1
restore_one-Inv t p h v =
    Frame-Inv (p.next_cid + 1) p (restore_one t p).1 (restore_one-Frame t p h) (omega arith) v

-- A restored VM joins a pool that knows nothing of its name.
restored-Inv :
    (n : ℕ) (vm : PoolVm) (q : Pool)
    → Inv q
    → q.next_cid ≡ suc n
    → lookup (pool_id q.daemon_pid n) q.active ≡ none
    → Below n q.ready
    → vm.vm_id ≡ pool_id q.daemon_pid n
    → vm.cid ≡ n
    → Inv (push_ready vm q) × Inv (register_active vm q)
unfolding push_ready
restored-Inv n vm q v e free low id cid = (
  (record {
    counted = v.counted;
    distinct = v.distinct;
    named = (rw cid id, v.named);
    below = (omega arith, rw cid low);
    absent = (rw id free, v.absent);
    unused = v.unused;
  }),
  register_active-Inv vm q v (rw id free)
      (rw id (Named-ne q.daemon_pid n n q.ready (omega arith) v.named low))
      (λ c h x. omega (arith, pool_id-injective q.daemon_pid n c (sym id ∙ x))),
)

restored_cases-Inv :
    (t : Trial) (p : Pool)
    → p.next_cid + 1 < 2 ^ 64
    → Inv p
    → (r : Result Error PoolVm) (q : Pool) → restore_one t p ≡ (r, q)
    → Inv (push_restored (r, q)) × Inv (acquire_restored (r, q)).1
unfolding push_restored acquire_restored
restored_cases-Inv t p h v (err e) q eq =
    let i : Inv q = subst (λ x. Inv x.1) eq (restore_one-Inv t p h v) in (i, i)
restored_cases-Inv t p h v (ok vm) q eq =
    let i : Inv q = subst (λ x. Inv x.1) eq (restore_one-Inv t p h v) in
    let f : Frame p (p.next_cid + 1) q =
      subst (λ x. Frame p (p.next_cid + 1) x.1) eq (restore_one-Frame t p h) in
    let g = restore_one_vm t p vm (ap (λ x. x.0) eq) in
    restored-Inv p.next_cid vm q i (omega (arith, f.next_cid))
      (rw (f.config, f.active) (v.unused p.next_cid (omega arith))) (rw f.ready v.below)
      (rw f.config g.0) g.1

pub push_restored-Inv :
    (t : Trial) (p : Pool) → p.next_cid + 1 < 2 ^ 64 → Inv p → Inv (push_restored (restore_one t p))
push_restored-Inv t p h v = (restored_cases-Inv t p h v _ _ refl).0

-- Popping a ready VM frees its name for the active set.
popped-Inv :
    (vm : PoolVm) (rest : List PoolVm) (p : Pool)
    → p.ready ≡ vm ∷ rest
    → Inv p
    → Inv (register_active vm (record p { ready = rest }))
popped-Inv vm rest p e v =
    let all : Named p.daemon_pid (vm ∷ rest) = rw e at v.named in
    let low : Below p.next_cid (vm ∷ rest) = rw e at v.below in
    let free : Absent p.active (vm ∷ rest) = rw e at v.absent in
    register_active-Inv vm (record p { ready = rest })
      (record {
        counted = v.counted;
        distinct = v.distinct;
        named = all.1;
        below = Below-mono rest (omega arith) low.1;
        absent = free.1;
        unused = v.unused;
      })
      free.0 (rw all.0 (Named-ne p.daemon_pid vm.cid vm.cid rest (omega arith) all.1 low.1))
      (λ c h x. omega (arith, low.0, pool_id-injective p.daemon_pid vm.cid c (sym all.0 ∙ x)))

pub acquire-Inv : (t : Trial) (p : Pool) → p.next_cid + 1 < 2 ^ 64 → Inv p → Inv (acquire t p).1
unfolding acquire
acquire-Inv t p h v = by_ready p.ready refl
  where
    by_ready : (vs : List PoolVm) → p.ready ≡ vs → Inv (acquire t p).1
    by_ready [] e = rw (e, acquire) (restored_cases-Inv t p h v _ _ refl).1
    by_ready (vm ∷ rest) e = rw (e, acquire) (popped-Inv vm rest p e v)

pub replenish_one-Inv :
    (t : Trial) (p : Pool) → p.next_cid + 1 < 2 ^ 64 → Inv p → Inv (replenish_one t p)
unfolding replenish_one
replenish_one-Inv t p h v = ground (arith, push_restored-Inv t p h v)
