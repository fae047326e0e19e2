-- ===== src/Pool/Fresh.antt =====
-- The names that pool.rs gives to VMs: a CID is never given twice, so neither is a name.
use containerd_cloudhypervis.Common.{
  ℕ, ◌+◌, ◌^◌, ◌≤◌, ◌<◌, ◌≡◌, ◌∷◌, ◌++◌, Text, codes, show_dec, show_dec-injective,
  append-left_cancel, ok, arith,
}
use containerd_cloudhypervis.Pool.State.{Pool, PoolVm, pool_id}
use containerd_cloudhypervis.Pool.Restore.{Trial, BaseTrial, restore_one, create_base_snapshot}

pub pool_id-injective : (pid c d : ℕ) → pool_id pid c ≡ pool_id pid d → c ≡ d
unfolding pool_id
pool_id-injective pid c d e =
    show_dec-injective c d (cons_tail (append-left_cancel (codes "pool-" ++ show_dec pid) _ _ e))
  where
    cons_tail : {x : ℕ} {xs ys : Text} → x ∷ xs ≡ x ∷ ys → xs ≡ ys
    cons_tail e = cc

-- From `p` to `q` the next CID has become `n`, and the lists of VMs are as they were.
pub record Frame (p : Pool) (n : ℕ) (q : Pool) : Type 0 where
  pub config : q.config ≡ p.config
  pub ready : q.ready ≡ p.ready
  pub active : q.active ≡ p.active
  pub active_count : q.active_count ≡ p.active_count
  pub next_cid : q.next_cid ≡ n

-- A restore takes one CID and leaves the lists of VMs alone, whatever its outcome.
pub restore_one-Frame :
    (t : Trial) (p : Pool) → p.next_cid + 1 < 2 ^ 64 → Frame p (p.next_cid + 1) (restore_one t p).1
unfolding restore_one
restore_one-Frame t p h = ground arith

pub create_base_snapshot-Frame :
    (t : BaseTrial) (p : Pool)
    → p.next_cid + 1 < 2 ^ 64
    → let q = (create_base_snapshot t p).1 in
      (p.next_cid ≤ q.next_cid) × (q.next_cid ≤ p.next_cid + 1) × Frame p q.next_cid q
unfolding create_base_snapshot
create_base_snapshot-Frame t p h = ground arith

pub restore_one_vm :
    (t : Trial) (p : Pool) (vm : PoolVm)
    → (restore_one t p).0 ≡ ok vm
    → (vm.vm_id ≡ pool_id p.daemon_pid p.next_cid) × (vm.cid ≡ p.next_cid)
unfolding restore_one
restore_one_vm t p vm h = ground arith
