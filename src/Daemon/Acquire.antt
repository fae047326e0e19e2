-- ===== src/Daemon/Acquire.antt =====
-- What `handle_acquire` of api.rs does to the pool, on its answers and on its errors.
use containerd_cloudhypervis.Common.{
  ℕ, suc, ◌≡◌, refl, ap, inl, inr, Bool, true, false, none, some, List, [], ◌∷◌, Text, Result, ok,
  err, Result-cases, arith, if◌then◌else◌, lookup-insert,
}
use containerd_cloudhypervis.Pool.State.{Pool, PoolVm}
use containerd_cloudhypervis.Pool.Restore.{Trial, restore_one}
use containerd_cloudhypervis.Pool.Ops
use containerd_cloudhypervis.Pool.Ops.{acquire, register_active, get_active}
use containerd_cloudhypervis.Shadow.Task.{Manager, restore_from_snapshot}
use containerd_cloudhypervis.Shadow.Task
use containerd_cloudhypervis.Shadow.Cache.{has_snapshot}
use containerd_cloudhypervis.Daemon.Vm.{is_empty}
use containerd_cloudhypervis.Daemon.State.{Daemon, Error, M, ◌>>=◌, ◌>>◌, on_pool}
use containerd_cloudhypervis.Daemon.Handlers.{
  AcquireRequest, AcquireTrial, AcquireResponse, handle_acquire, acquire_pooled, acquire_restored,
  trigger_if, after_restore, restore_warm, acquire_warm,
}
use containerd_cloudhypervis.Daemon.Effects.{run_if-Leaves, trigger_if-pool, warm_networking-Leaves}

acquire-registers :
    (t : Trial) (p : Pool) (vm : PoolVm)
    → (acquire t p).0 ≡ ok vm
    → get_active vm.vm_id (acquire t p).1 ≡ some vm
unfolding acquire get_active register_active Ops.acquire_restored
acquire-registers t p vm h = by_ready p.ready refl
  where
    by_ready : (vs : List PoolVm) → p.ready ≡ vs → get_active vm.vm_id (acquire t p).1 ≡ some vm
    by_ready [] r = ground (arith, lookup-insert vm.vm_id vm.vm_id vm (restore_one t p).1.active)
    by_ready (x ∷ rest) r = ground (arith, lookup-insert vm.vm_id vm.vm_id vm p.active)

-- Whatever comes of the container, the pool is left as `acquire` leaves it.
pub acquire_pooled-pool :
    (r : AcquireRequest) (t : AcquireTrial) (s : Daemon)
    → (acquire_pooled r t s).1.manager.pool ≡ (acquire t.restore s.manager.pool).1
unfolding acquire_pooled
acquire_pooled-pool r t s = elim (Result-cases (acquire t.restore s.manager.pool).0) [
  | inl (vm, e) ↦
      let got = on_pool (λ _. (acquire t.restore s.manager.pool).1) s in
      let u = trigger_if r t.later_mtime (record got { replenishing = suc s.replenishing }) in
      let kept =
        trigger_if-pool r t.later_mtime (record got { replenishing = suc s.replenishing }) in
      let ran = (run_if-Leaves r vm t.run).leaves u in ground (arith, e, kept, ran)
  | inr (x, e) ↦ ground (arith, e)
]

pub acquire_pooled-vm :
    (r : AcquireRequest) (t : AcquireTrial) (s : Daemon) (answer : AcquireResponse)
    → (acquire_pooled r t s).0 ≡ ok answer
    → (acquire t.restore s.manager.pool).0 ≡ ok answer.vm
unfolding acquire_pooled
acquire_pooled-vm r t s answer h = elim (Result-cases (acquire t.restore s.manager.pool).0) [
  | inl (vm, e) ↦ ground (arith, e)
  | inr (x, e) ↦ ground (arith, e)
]

pub acquire_restored-ok :
    (r : AcquireRequest) (t : AcquireTrial) (vm : PoolVm) (s : Daemon) (answer : AcquireResponse)
    → (acquire_restored r t vm s).0 ≡ ok answer
    → (answer.vm ≡ vm)
      × (answer.from_snapshot ≡ true)
      × ((acquire_restored r t vm s).1.manager.pool ≡ register_active vm s.manager.pool)
unfolding acquire_restored
acquire_restored-ok r t vm s answer h =
    let kept = (warm_networking-Leaves r t vm).leaves s in ground (arith, kept)

pub acquire_restored_fails :
    (r : AcquireRequest) (t : AcquireTrial) (vm : PoolVm) (s : Daemon) {e : Error}
    → (acquire_restored r t vm s).0 ≡ err e
    → (acquire_restored r t vm s).1.manager ≡ s.manager
unfolding acquire_restored
acquire_restored_fails r t vm s h =
    let kept = (warm_networking-Leaves r t vm).leaves s in ground (arith, kept)

abbrev Granted : Result Error AcquireResponse × Daemon → Type 0
Granted x =
    (answer : AcquireResponse)
    → x.0 ≡ ok answer
    → get_active answer.vm.vm_id x.1.manager.pool ≡ some answer.vm

-- An answer names a VM that is then active, with exactly the sockets, CID and pid of the answer.
record Grants (m : M AcquireResponse) : Type 0 where
  grants : (s : Daemon) → Granted (m s)

acquire_pooled-Grants : (r : AcquireRequest) (t : AcquireTrial) → Grants (acquire_pooled r t)
acquire_pooled-Grants r t = record {
  grants = λ s answer h.
      rw (acquire_pooled-pool r t s)
        (acquire-registers t.restore s.manager.pool answer.vm (acquire_pooled-vm r t s answer h));
}

registered : (vm : PoolVm) (p : Pool) → get_active vm.vm_id (register_active vm p) ≡ some vm
unfolding get_active register_active
registered vm p = ground (arith, lookup-insert vm.vm_id vm.vm_id vm p.active)

acquire_restored-Grants :
    (r : AcquireRequest) (t : AcquireTrial) (vm : PoolVm) → Grants (acquire_restored r t vm)
acquire_restored-Grants r t vm = record {
  grants = λ s answer h.
      let made = acquire_restored-ok r t vm s answer h in
      rw (made.0, made.2) (registered vm s.manager.pool);
}

bind-Grants :
    {A : Type 0} (m : M A) (f : A → M AcquireResponse) → ((a : A) → Grants (f a)) → Grants (m >>= f)
bind-Grants {A} m f k = record { grants = λ s. by_result (m s).0 (m s).1 }
  where
    by_result :
        (x : Result Error A) (t : Daemon)
        → Granted (
            let y : Result Error AcquireResponse × Daemon = elim x [
              | ok a ↦ f a t
              | err e ↦ (err e, t)
            ] in
            y)
    by_result (ok a) t answer h = (k a).grants t answer h
    by_result (err e) t answer h = ground arith

after_restore-Grants :
    (r : AcquireRequest) (t : AcquireTrial) (vm_id : Text) (cid : ℕ)
    (x : Result Task.Error (ℕ × Text × Text)) (m : Manager)
    → Grants (after_restore r t vm_id cid (x, m))
unfolding after_restore
after_restore-Grants r t vm_id cid (ok (pid, api, vsock)) m = record {
  grants = λ s. (acquire_restored-Grants r t _).grants (record s { manager = m });
}
after_restore-Grants r t vm_id cid (err e) m = record {
  grants = λ s. (acquire_pooled-Grants r t).grants (record s { manager = m });
}

then-Grants : (m : M (Unit {0})) (k : M AcquireResponse) → Grants k → Grants (m >> k)
then-Grants m k h = bind-Grants m (λ _. k) (λ _. h)

restore_warm-Grants :
    (r : AcquireRequest) (t : AcquireTrial) (vm_id : Text) (cid : ℕ) (dir : Text)
    → Grants (restore_warm r t vm_id cid dir)
unfolding restore_warm
restore_warm-Grants r t vm_id cid dir = record {
  grants = λ s.
      let (x, m) = restore_from_snapshot r.image_key dir t.warm s.manager in
      (after_restore-Grants r t vm_id cid x m).grants s;
}

acquire_warm-Grants : (r : AcquireRequest) (t : AcquireTrial) → Grants (acquire_warm r t)
unfolding acquire_warm
acquire_warm-Grants r t = search (bind-Grants, then-Grants, restore_warm-Grants) depth 20

if-Granted :
    (b : Bool) (x y : Result Error AcquireResponse × Daemon)
    → Granted x
    → Granted y
    → Granted (if b then x else y)
if-Granted true x y h k = h
if-Granted false x y h k = k

-- Whenever `handle_acquire` answers with a VM, warm or from the pool, that VM is active in the pool
-- under the name it answers, with exactly the sockets, the CID and the pid that it answers.
pub handle_acquire-active :
    (r : AcquireRequest) (t : AcquireTrial) (s : Daemon) (answer : AcquireResponse)
    → (handle_acquire r t s).0 ≡ ok answer
    → get_active answer.vm.vm_id (handle_acquire r t s).1.manager.pool ≡ some answer.vm
unfolding handle_acquire
handle_acquire-active r t s =
    let erofs = if is_empty r.erofs_path then none else some t.mtime in
    let (found, c) = has_snapshot r.image_key erofs s.manager.snapshots in
    let checked = record s { manager = record s.manager { snapshots = c } } in
    if-Granted (is_empty r.image_key) _ _ ((acquire_pooled-Grants r t).grants s) (
      if-Granted found _ _ ((acquire_warm-Grants r t).grants checked)
        ((acquire_pooled-Grants r t).grants checked))

if_then : {A : Type 0} (b : Bool) (x y : A) → b ≡ true → (if b then x else y) ≡ x
if_then true x y e = refl
if_then false x y e = ground arith

handle_acquire_keyless :
    (r : AcquireRequest) (t : AcquireTrial) (s : Daemon)
    → r.image_key ≡ []
    → handle_acquire r t s ≡ acquire_pooled r t s
unfolding handle_acquire
handle_acquire_keyless r t s k = if_then (is_empty r.image_key) _ _ (ap is_empty k)

-- If the VM was taken from the pool and the container cannot be run in it, the shim gets an error,
-- and the VM stays active under a name that the shim was not told.
pub handle_acquire_leaks :
    (r : AcquireRequest) (t : AcquireTrial) (s : Daemon) (vm : PoolVm) {e : Error}
    → r.image_key ≡ []
    → (acquire t.restore s.manager.pool).0 ≡ ok vm
    → (handle_acquire r t s).0 ≡ err e
    → get_active vm.vm_id (handle_acquire r t s).1.manager.pool ≡ some vm
handle_acquire_leaks r t s vm k h f =
    rw (handle_acquire_keyless r t s k, acquire_pooled-pool r t s)
      (acquire-registers t.restore s.manager.pool vm h)
