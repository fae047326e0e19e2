-- ===== src/Pool/Invariant.antt =====
-- What holds of the pool between two operations, and that every operation keeps it.
use containerd_cloudhypervis.Common.{
  ℕ, ◌≤◌, ◌<◌, ◌≡◌, ◌≢◌, sym, ◌∙◌, List, [], ◌∷◌, none, Text, arith, length, All, lookup, insert,
  remove, Distinct, lookup-insert, lookup-remove-none, insert-Distinct, length-insert,
}
use containerd_cloudhypervis.Pool.State.{Pool, PoolVm, pool_id, u64}
use containerd_cloudhypervis.Pool.Ops.{register_active}
use containerd_cloudhypervis.Pool.Fresh.{Frame, pool_id-injective}

-- CIDs fall along the list and stay under the bound.
abbrev pub Below : ℕ → List PoolVm → Type 0
Below n [] = Unit {0}
Below n (v ∷ vs) = (v.cid < n) × Below v.cid vs

abbrev pub Named : ℕ → List PoolVm → Type 0
Named pid = All (λ v. v.vm_id ≡ pool_id pid v.cid)

abbrev pub Absent : List (Text × PoolVm) → List PoolVm → Type 0
Absent m = All (λ v. lookup v.vm_id m ≡ none)

pub record Inv (p : Pool) : Type 0 where
  pub counted : p.active_count ≡ u64 (length p.active)
  pub distinct : Distinct p.active
  pub named : Named p.daemon_pid p.ready
  pub below : Below p.next_cid p.ready
  pub absent : Absent p.active p.ready
  pub unused : (c : ℕ) → p.next_cid ≤ c → lookup (pool_id p.daemon_pid c) p.active ≡ none

pub Below-mono : {m n : ℕ} (vs : List PoolVm) → m ≤ n → Below m vs → Below n vs
Below-mono [] h b = tt
Below-mono (v ∷ vs) h b = (omega arith, b.1)

pub Absent-insert :
    (k : Text) (vm : PoolVm) (m : List (Text × PoolVm)) (vs : List PoolVm)
    → All (λ v. v.vm_id ≢ k) vs
    → Absent m vs
    → Absent (insert k vm m) vs
Absent-insert k vm m [] h a = tt
Absent-insert k vm m (v ∷ vs) h a =
    (ground (arith, lookup-insert k v.vm_id vm m), Absent-insert k vm m vs h.1 a.1)

pub Absent-remove :
    (k : Text) (m : List (Text × PoolVm)) (vs : List PoolVm) → Absent m vs → Absent (remove k m) vs
Absent-remove k m [] a = tt
Absent-remove k m (v ∷ vs) a = (lookup-remove-none k v.vm_id m a.0, Absent-remove k m vs a.1)

pub Named-ne :
    (pid c n : ℕ) (vs : List PoolVm)
    → n ≤ c
    → Named pid vs
    → Below n vs
    → All (λ v. v.vm_id ≢ pool_id pid c) vs
Named-ne pid c n [] h m b = tt
Named-ne pid c n (v ∷ vs) h m b = (
  (λ e. omega (arith, pool_id-injective pid v.cid c (sym m.0 ∙ e))),
  Named-ne pid c v.cid vs (omega arith) m.1 b.1,
)

pub register_active-Inv :
    (vm : PoolVm) (p : Pool)
    → Inv p
    → lookup vm.vm_id p.active ≡ none
    → All (λ v. v.vm_id ≢ vm.vm_id) p.ready
    → ((c : ℕ) → p.next_cid ≤ c → vm.vm_id ≢ pool_id p.daemon_pid c)
    → Inv (register_active vm p)
unfolding register_active
register_active-Inv vm p v free apart new_id = record {
  counted = ground (arith, v.counted, length-insert vm.vm_id vm p.active);
  distinct = insert-Distinct vm.vm_id vm p.active v.distinct;
  named = v.named;
  below = v.below;
  absent = Absent-insert vm.vm_id vm p.active p.ready apart v.absent;
  unused = λ c h. ground (
    arith,
    lookup-insert vm.vm_id (pool_id p.daemon_pid c) vm p.active,
    v.unused c h,
    new_id c h,
  );
}

-- It holds on where only the next CID and the host have moved on.
pub Frame-Inv : (n : ℕ) (p q : Pool) → Frame p n q → p.next_cid ≤ n → Inv p → Inv q
Frame-Inv n p q f h v = record {
  counted = rw (f.active, f.active_count) v.counted;
  distinct = rw f.active v.distinct;
  named = rw (f.config, f.ready) v.named;
  below = rw f.ready (Below-mono p.ready (omega (arith, f.next_cid)) v.below);
  absent = rw (f.active, f.ready) v.absent;
  unused = λ k hk. rw (f.active, f.config) (v.unused k (omega (arith, f.next_cid)));
}
