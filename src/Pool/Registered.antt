-- ===== src/Pool/Registered.antt =====
-- The VMs that are registered in the pool of pool.rs from outside, and their names.
use containerd_cloudhypervis.Common.{
  ℕ, ◌+◌, ◌^◌, ◌<◌, ◌≡◌, ◌≢◌, refl, sym, ◌∙◌, inl, inr, List, [], ◌∷◌, none, some, Text, ok, err,
  arith, All, All-mono, insert, Result-cases,
}
use containerd_cloudhypervis.Pool.State.{Pool, PoolVm, pool_id, next_cid_pub}
use containerd_cloudhypervis.Pool.Restore.{Trial, restore_one, destroy_vm}
use containerd_cloudhypervis.Pool.Ops.{
  push_restored, register_active, acquire, acquire_restored, release, replenish_one, Call, acquires,
  releases, replenishes, takes_cid, registers, step,
}
use containerd_cloudhypervis.Pool.Fresh.{restore_one-Frame, restore_one_vm}
use containerd_cloudhypervis.Pool.Invariant.{
  Named, Absent, Inv, Absent-insert, Absent-remove, register_active-Inv,
}

abbrev pub registered : List Call → List PoolVm
registered [] = []
registered (acquires t ∷ cs) = registered cs
registered (releases id pid_file ∷ cs) = registered cs
registered (replenishes t ∷ cs) = registered cs
registered (takes_cid ∷ cs) = registered cs
registered (registers vm ∷ cs) = vm ∷ registered cs

-- A name that the pool gives to none of its own VMs.
abbrev pub IsForeign : ℕ → PoolVm → Type 0
IsForeign pid vm = (c : ℕ) → vm.vm_id ≢ pool_id pid c

abbrev pub Apart : List PoolVm → Type 0
Apart [] = Unit {0}
Apart (vm ∷ vms) = All (λ (v : PoolVm). v.vm_id ≢ vm.vm_id) vms × Apart vms

-- What the calls that are to come ask of the pool: the VMs that they register have names of their
-- own, which are not active yet.
pub record Room (cs : List Call) (p : Pool) : Type 0 where
  pub foreign : All (IsForeign p.daemon_pid) (registered cs)
  pub apart : Apart (registered cs)
  pub absent : Absent p.active (registered cs)

pub Named-foreign :
    (pid : ℕ) (vm : PoolVm) (vs : List PoolVm)
    → IsForeign pid vm
    → Named pid vs
    → All (λ (v : PoolVm). v.vm_id ≢ vm.vm_id) vs
Named-foreign pid vm vs f = All-mono (λ v n e. f v.cid (sym e ∙ n)) vs

pub registered-Inv :
    (vm : PoolVm) (cs : List Call) (p : Pool)
    → Room (registers vm ∷ cs) p
    → Inv p
    → Inv (register_active vm p)
registered-Inv vm cs p r v =
    register_active-Inv vm p v r.absent.0
      (Named-foreign p.daemon_pid vm p.ready r.foreign.0 v.named) (λ c h. r.foreign.0 c)

-- A VM of the pool takes no name from those that are to be registered.
own-Absent :
    (pid c : ℕ) (vm : PoolVm) (m : List (Text × PoolVm)) (vs : List PoolVm)
    → vm.vm_id ≡ pool_id pid c
    → All (IsForeign pid) vs
    → Absent m vs
    → Absent (insert vm.vm_id vm m) vs
own-Absent pid c vm m vs e f a =
    Absent-insert vm.vm_id vm m vs (All-mono (λ v g same. g c (same ∙ e)) vs f) a

acquire-Absent :
    (t : Trial) (p : Pool) (vs : List PoolVm)
    → p.next_cid + 1 < 2 ^ 64
    → Inv p
    → All (IsForeign p.daemon_pid) vs
    → Absent p.active vs
    → Absent (acquire t p).1.active vs
unfolding acquire acquire_restored register_active
acquire-Absent t p vs h v f a = by_ready p.ready refl
  where
    by_ready : (ws : List PoolVm) → p.ready ≡ ws → Absent (acquire t p).1.active vs
    by_ready (vm ∷ rest) e =
        let named : Named p.daemon_pid (vm ∷ rest) = rw e at v.named in
        rw (e, acquire) (own-Absent p.daemon_pid vm.cid vm p.active vs named.0 f a)
    by_ready [] e =
        let same = (restore_one-Frame t p h).active in
        elim (Result-cases (restore_one t p).0) [
          | inl (vm, made) ↦
              let q = (restore_one t p).1 in
              let ran : restore_one t p ≡ (ok vm, q) = ground arith in
              rw (e, acquire, ran, same)
                (own-Absent p.daemon_pid p.next_cid vm p.active vs (restore_one_vm t p vm made).0 f
                  a)
          | inr (x, failed) ↦
              let q = (restore_one t p).1 in
              let ran : restore_one t p ≡ (err x, q) = ground arith in rw (e, acquire, ran, same) a
        ]

pub step_config : (c : Call) (p : Pool) → p.next_cid + 1 < 2 ^ 64 → (step c p).config ≡ p.config
unfolding step acquire acquire_restored register_active release destroy_vm replenish_one
    push_restored next_cid_pub
step_config (acquires t) p h = ground (arith, restore_one-Frame t p h)
step_config (releases vm_id none) p h = refl
step_config (releases vm_id (some pid)) p h = refl
step_config (replenishes t) p h = ground (arith, restore_one-Frame t p h)
step_config takes_cid p h = refl
step_config (registers vm) p h = refl

step-Absent :
    (c : Call) (cs : List Call) (p : Pool)
    → p.next_cid + 1 < 2 ^ 64
    → Inv p
    → Room (c ∷ cs) p
    → Absent (step c p).active (registered cs)
unfolding step acquire acquire_restored register_active release destroy_vm replenish_one
    push_restored next_cid_pub
step-Absent (acquires t) cs p h v r = acquire-Absent t p (registered cs) h v r.foreign r.absent
step-Absent (releases vm_id none) cs p h v r = Absent-remove vm_id p.active (registered cs) r.absent
step-Absent (releases vm_id (some pid)) cs p h v r =
    Absent-remove vm_id p.active (registered cs) r.absent
step-Absent (replenishes t) cs p h v r =
    let same : (replenish_one t p).active ≡ p.active = ground (arith, restore_one-Frame t p h) in
    rw same r.absent
step-Absent takes_cid cs p h v r = r.absent
step-Absent (registers vm) cs p h v r =
    Absent-insert vm.vm_id vm p.active (registered cs) r.apart.0 r.absent.1

tail_names :
    (pid : ℕ) (c : Call) (cs : List Call)
    → All (IsForeign pid) (registered (c ∷ cs))
    → Apart (registered (c ∷ cs))
    → All (IsForeign pid) (registered cs) × Apart (registered cs)
tail_names pid (acquires t) cs f a = (f, a)
tail_names pid (releases vm_id pid_file) cs f a = (f, a)
tail_names pid (replenishes t) cs f a = (f, a)
tail_names pid takes_cid cs f a = (f, a)
tail_names pid (registers vm) cs f a = (f.1, a.1)

pub step-Room :
    (c : Call) (cs : List Call) (p : Pool)
    → p.next_cid + 1 < 2 ^ 64
    → Inv p
    → Room (c ∷ cs) p
    → Room cs (step c p)
step-Room c cs p h v r =
    let names = tail_names p.daemon_pid c cs r.foreign r.apart in
    record {
      foreign = rw (step_config c p h) names.0;
      apart = names.1;
      absent = step-Absent c cs p h v r;
    }
