-- ===== src/Pool/History.antt =====
-- What holds of the pool of pool.rs after any sequence of operations.
use containerd_cloudhypervis.Common.{
  ℕ, ◌+◌, ◌^◌, ◌≤◌, ◌<◌, Bool, List, [], ◌∷◌, none, some, arith, length, All,
}
use containerd_cloudhypervis.Pool.State.{Pool, Config}
use containerd_cloudhypervis.Pool.Restore.{Trial, BaseTrial, destroy_vm}
use containerd_cloudhypervis.Pool.Ops.{
  new, initialize, acquire, acquire_restored, release, replenish_one, Call, register_active,
  acquires, releases, replenishes, takes_cid, registers, step, run,
}
use containerd_cloudhypervis.Pool.Fresh.{restore_one-Frame}
use containerd_cloudhypervis.Pool.Invariant.{Inv, Frame-Inv}
use containerd_cloudhypervis.Pool.Initial.{
  push_restored_config, initialize-Inv, initialize_lists, empty-Absent,
}
use containerd_cloudhypervis.Pool.Registered.{
  registered, IsForeign, Apart, Room, registered-Inv, step-Room,
}
use containerd_cloudhypervis.Pool.Preserve.{release-Inv, acquire-Inv, replenish_one-Inv}

pub step_next_cid :
    (c : Call) (p : Pool)
    → p.next_cid + 1 < 2 ^ 64
    → (p.next_cid ≤ (step c p).next_cid) × ((step c p).next_cid ≤ p.next_cid + 1)
unfolding step acquire acquire_restored register_active release destroy_vm replenish_one
step_next_cid (acquires t) p h = ground (arith, restore_one-Frame t p h)
step_next_cid (releases vm_id none) p h = ground arith
step_next_cid (releases vm_id (some pid)) p h = ground arith
step_next_cid (replenishes t) p h = ground (arith, push_restored_config t p h)
step_next_cid takes_cid p h = ground arith
step_next_cid (registers vm) p h = ground arith

step_ready :
    (c : Call) (p : Pool)
    → p.next_cid + 1 < 2 ^ 64
    → length p.ready ≤ p.pool_size
    → length (step c p).ready ≤ (step c p).pool_size
unfolding step acquire acquire_restored register_active release destroy_vm replenish_one
step_ready (acquires t) p h b = ground (arith, restore_one-Frame t p h)
step_ready (releases vm_id none) p h b = ground arith
step_ready (releases vm_id (some pid)) p h b = ground arith
step_ready (replenishes t) p h b = ground (arith, push_restored_config t p h)
step_ready takes_cid p h b = ground arith
step_ready (registers vm) p h b = b

pub step-Inv :
    (c : Call) (cs : List Call) (p : Pool)
    → p.next_cid + 1 < 2 ^ 64
    → Room (c ∷ cs) p
    → Inv p
    → Inv (step c p)
unfolding step
step-Inv (acquires t) cs p h r v = acquire-Inv t p h v
step-Inv (releases vm_id pid_file) cs p h r v = release-Inv vm_id pid_file p v
step-Inv (replenishes t) cs p h r v = replenish_one-Inv t p h v
step-Inv takes_cid cs p h r v = Frame-Inv (p.next_cid + 1) p _ (ground arith) (omega arith) v
step-Inv (registers vm) cs p h r v = registered-Inv vm cs p r v

pub run-Inv :
    (cs : List Call) (p : Pool)
    → p.next_cid + length cs < 2 ^ 64
    → Room cs p
    → Inv p
    → Inv (run cs p)
unfolding run
run-Inv [] p h r v = v
run-Inv (c ∷ cs) p h r v =
    run-Inv cs (step c p) (omega (arith, step_next_cid c p (omega arith)))
      (step-Room c cs p (omega arith) v r) (step-Inv c cs p (omega arith) r v)

pub run_ready :
    (cs : List Call) (p : Pool)
    → p.next_cid + length cs < 2 ^ 64
    → length p.ready ≤ p.pool_size
    → length (run cs p).ready ≤ (run cs p).pool_size
unfolding run
run_ready [] p h b = b
run_ready (c ∷ cs) p h b =
    run_ready cs (step c p) (omega (arith, step_next_cid c p (omega arith)))
      (step_ready c p (omega arith) b)

-- The pool of the daemon while its operations do not overlap: it starts with `initialize`, whatever
-- the outcomes of the base snapshot and of the restores, and any sequence of acquires, releases,
-- replenishments, CID allocations and registrations of VMs follows. Let the VMs that are registered
-- have names of their own, which the pool gives to none of its VMs and of which no two are equal. As
-- long as the 64-bit CID counter has not run out, the count of active VMs is the number of entries of
-- the active map (as a 64-bit number), no VM name or CID is used twice among the idle VMs, no idle VM
-- is active, no name that is still to be given is active, and at most `pool_size` VMs are idle.
pub run-initialize-Inv :
    (valid : Bool) (base : BaseTrial) (trials : ℕ → Trial) (c : Config) (cs : List Call)
    → 4 + c.pool_size + length cs < 2 ^ 64
    → All (IsForeign c.daemon_pid) (registered cs)
    → Apart (registered cs)
    → let p = run cs (initialize valid base trials (new c)).1 in
      Inv p × (length p.ready ≤ p.pool_size)
run-initialize-Inv valid base trials c cs h f a =
    let (v, l, n) = initialize-Inv valid base trials c (omega arith) in
    let (same, none_active) = initialize_lists valid base trials c (omega arith) in
    let q = (initialize valid base trials (new c)).1 in
    let room : Room cs q = record {
      foreign = rw same f;
      apart = a;
      absent = rw none_active (empty-Absent (registered cs));
    } in
    (run-Inv cs _ (omega (arith, n)) room v, run_ready cs _ (omega (arith, n)) l)
