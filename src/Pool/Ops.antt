-- ===== src/Pool/Ops.antt =====
-- pool.rs: `initialize`, `acquire`, `release`, `get_active`, `register_active`, `replenish_one`
-- and the counters.
use containerd_cloudhypervis.Common.{
  ℕ, zero, suc, ◌+◌, ◌-◌, ◌^◌, Bool, true, false, Option, List, [], ◌∷◌, Text, Result, ok, err,
  if◌then◌else◌, leb, length, lookup, insert, remove, is_some,
}
use containerd_cloudhypervis.Pool.State.{Pool, PoolVm, Config, Error, M, u64, next_cid_pub}
use containerd_cloudhypervis.Pool.Restore.{
  Trial, BaseTrial, restore_one, destroy_vm, create_base_snapshot,
}

unfoldable pub new : Config → Pool
new c = record {
  config = c;
  ready = [];
  active = [];
  active_count = 0;
  next_cid = 3;
  host = record { processes = []; dirs = [] };
}

unfoldable pub push_ready : PoolVm → Pool → Pool
push_ready vm p = record p { ready = vm ∷ p.ready }

unfoldable pub push_restored : Result Error PoolVm × Pool → Pool
unfolding push_ready
push_restored (ok vm, p) = push_ready vm p
push_restored (err e, p) = p

-- The loop of `initialize`: a restore that fails is logged and leaves the pool short.
unfoldable pub fill : ℕ → ℕ → (ℕ → Trial) → Pool → Pool
fill zero i trials p = p
fill (suc n) i trials p = fill n (i + 1) trials (push_restored (restore_one (trials i) p))

unfoldable pub fill_after :
    (ℕ → Trial) → Result Error (Unit {0}) × Pool → Result Error (Unit {0}) × Pool
fill_after trials (ok u, p) = (ok tt, fill p.pool_size 0 trials p)
fill_after trials (err e, p) = (err e, p)

-- The flag says that the three files of the base snapshot exist.
unfoldable pub initialize : Bool → BaseTrial → (ℕ → Trial) → M (Unit {0})
unfolding fill_after
initialize true base trials p = fill_after trials (ok tt, p)
initialize false base trials p = fill_after trials (create_base_snapshot base p)

unfoldable pub register_active : PoolVm → Pool → Pool
register_active vm p = record p {
  active_count = u64 (p.active_count + 1);
  active = insert vm.vm_id vm p.active;
}

unfoldable pub acquire_restored : Result Error PoolVm × Pool → Result Error PoolVm × Pool
unfolding register_active
acquire_restored (ok vm, p) = (ok vm, register_active vm p)
acquire_restored (err e, p) = (err e, p)

unfoldable pub acquire : Trial → M PoolVm
unfolding acquire_restored register_active
acquire t p = elim p.ready [
  | [] ↦ acquire_restored (restore_one t p)
  | vm ∷ rest ↦ (ok vm, register_active vm (record p { ready = rest }))
]

unfoldable pub release : Text → Option ℕ → Pool → Pool
release vm_id pid_file p =
    let removed = is_some (lookup vm_id p.active) in
    let q = record p {
      active = remove vm_id p.active;
      active_count = if removed then u64 (p.active_count + 2 ^ 64 - 1) else p.active_count;
    } in
    destroy_vm vm_id pid_file q

unfoldable pub get_active : Text → Pool → Option PoolVm
get_active vm_id p = lookup vm_id p.active

unfoldable pub replenish_one : Trial → Pool → Pool
unfolding push_restored
replenish_one t p = if leb p.pool_size (length p.ready) then p else push_restored (restore_one t p)

-- What reaches the pool: a shim's acquire or release, a replenishment after the delay, and, for a warm
-- restore, the allocation of a CID and the registration of the VM that came of it.
pub data Call : Type 0 where
  acquires : Trial → Call
  releases : Text → Option ℕ → Call
  replenishes : Trial → Call
  takes_cid : Call
  registers : PoolVm → Call

unfoldable pub step : Call → Pool → Pool
unfolding next_cid_pub register_active
step (acquires t) p = (acquire t p).1
step (releases vm_id pid_file) p = release vm_id pid_file p
step (replenishes t) p = replenish_one t p
step takes_cid p = (next_cid_pub p).1
step (registers vm) p = register_active vm p

unfoldable pub run : List Call → Pool → Pool
run [] p = p
run (c ∷ cs) p = run cs (step c p)
