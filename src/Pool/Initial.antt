-- ===== src/Pool/Initial.antt =====
-- What holds of the pool of pool.rs after `initialize`.
use containerd_cloudhypervis.Common.{
  ℕ, zero, suc, ◌+◌, ◌^◌, ◌≤◌, ◌<◌, ◌≡◌, refl, ap, ◌∙◌, Bool, true, false, List, [], ◌∷◌, Result,
  ok, err, arith, length, lookup,
}
use containerd_cloudhypervis.Pool.State.{Pool, PoolVm, Config, Error}
use containerd_cloudhypervis.Pool.Restore.{Trial, BaseTrial, restore_one, create_base_snapshot}
use containerd_cloudhypervis.Pool.Ops.{new, fill, fill_after, initialize, push_restored}
use containerd_cloudhypervis.Pool.Fresh.{restore_one-Frame, create_base_snapshot-Frame}
use containerd_cloudhypervis.Pool.Invariant.{Inv, Absent, Frame-Inv}
use containerd_cloudhypervis.Pool.Preserve.{push_restored-Inv}

pub push_restored_config :
    (t : Trial) (p : Pool)
    → p.next_cid + 1 < 2 ^ 64
    → let q = push_restored (restore_one t p) in
      (q.next_cid ≡ p.next_cid + 1) × (q.config ≡ p.config) × (length q.ready ≤ length p.ready + 1)
unfolding push_restored
push_restored_config t p h = ground (arith, restore_one-Frame t p h)

fill-Inv :
    (n i : ℕ) (trials : ℕ → Trial) (p : Pool)
    → p.next_cid + n < 2 ^ 64
    → Inv p
    → let q = fill n i trials p in
      Inv q
      × (q.config ≡ p.config)
      × (q.next_cid ≡ p.next_cid + n)
      × (length q.ready ≤ length p.ready + n)
unfolding fill
fill-Inv zero i trials p h v = (v, refl, omega arith, omega arith)
fill-Inv (suc n) i trials p h v =
    let q = push_restored (restore_one (trials i) p) in
    let s = push_restored_config (trials i) p (omega arith) in
    let (v', c, m, l) =
      fill-Inv n (i + 1) trials q (omega (arith, s.0))
        (push_restored-Inv (trials i) p (omega arith) v) in
    (v', c ∙ s.1, omega (arith, s.0, m), omega (arith, s.2, l))

new-Inv : (c : Config) → Inv (new c)
unfolding new lookup
new-Inv c = record {
  counted = refl;
  distinct = tt;
  named = tt;
  below = tt;
  absent = tt;
  unused = λ k h. refl;
}

fill_after-Inv :
    (r : Result Error (Unit {0})) (trials : ℕ → Trial) (p : Pool)
    → p.next_cid + p.pool_size < 2 ^ 64
    → Inv p
    → p.ready ≡ []
    → let q = (fill_after trials (r, p)).1 in
      Inv q × (length q.ready ≤ q.pool_size) × (q.next_cid ≤ p.next_cid + p.pool_size)
unfolding fill_after
fill_after-Inv (ok u) trials p h v e =
    let (v', c, m, l) = fill-Inv p.pool_size 0 trials p (omega arith) v in
    (v', omega (arith, ap (λ (x : Config). x.pool_size) c, l, ap length e), omega (arith, m))
fill_after-Inv (err x) trials p h v e = (v, omega (arith, ap length e), omega arith)

pub initialize-Inv :
    (valid : Bool) (base : BaseTrial) (trials : ℕ → Trial) (c : Config)
    → 4 + c.pool_size < 2 ^ 64
    → let q = (initialize valid base trials (new c)).1 in
      Inv q × (length q.ready ≤ q.pool_size) × (q.next_cid ≤ 4 + c.pool_size)
unfolding initialize new
initialize-Inv true base trials c h =
    let (v, l, m) = fill_after-Inv (ok tt) trials (new c) (omega arith) (new-Inv c) refl in
    (v, l, omega (arith, m))
initialize-Inv false base trials c h =
    let (lo, hi, f) = create_base_snapshot-Frame base (new c) (omega arith) in
    let q = (create_base_snapshot base (new c)).1 in
    let size = ap (λ (x : Config). x.pool_size) f.config in
    let (v, l, m) =
      fill_after-Inv (create_base_snapshot base (new c)).0 trials q (omega (arith, hi, size))
        (Frame-Inv q.next_cid (new c) q f lo (new-Inv c)) f.ready in
    (v, l, omega (arith, m, hi, size))

fill_lists :
    (n i : ℕ) (trials : ℕ → Trial) (p : Pool)
    → p.next_cid + n < 2 ^ 64
    → let q = fill n i trials p in (q.config ≡ p.config) × (q.active ≡ p.active)
unfolding fill push_restored
fill_lists zero i trials p h = (refl, refl)
fill_lists (suc n) i trials p h =
    let q = push_restored (restore_one (trials i) p) in
    let f = restore_one-Frame (trials i) p (omega arith) in
    let s = push_restored_config (trials i) p (omega arith) in
    let same : q.active ≡ p.active = ground (arith, f) in
    let rest = fill_lists n (i + 1) trials q (omega (arith, s.0)) in (rest.0 ∙ s.1, rest.1 ∙ same)

fill_after_lists :
    (r : Result Error (Unit {0})) (trials : ℕ → Trial) (p : Pool)
    → p.next_cid + p.pool_size < 2 ^ 64
    → let q = (fill_after trials (r, p)).1 in (q.config ≡ p.config) × (q.active ≡ p.active)
unfolding fill_after
fill_after_lists (ok u) trials p h = fill_lists p.pool_size 0 trials p h
fill_after_lists (err x) trials p h = (refl, refl)

-- No VM is active yet.
pub initialize_lists :
    (valid : Bool) (base : BaseTrial) (trials : ℕ → Trial) (c : Config)
    → 4 + c.pool_size < 2 ^ 64
    → let q = (initialize valid base trials (new c)).1 in (q.config ≡ c) × (q.active ≡ [])
unfolding initialize new
initialize_lists true base trials c h = fill_after_lists (ok tt) trials (new c) (omega arith)
initialize_lists false base trials c h =
    let (lo, hi, f) = create_base_snapshot-Frame base (new c) (omega arith) in
    let q = (create_base_snapshot base (new c)).1 in
    let size = ap (λ (x : Config). x.pool_size) f.config in
    let rest =
      fill_after_lists (create_base_snapshot base (new c)).0 trials q (omega (arith, hi, size)) in
    (rest.0 ∙ f.config, rest.1 ∙ f.active)

pub empty-Absent : (vs : List PoolVm) → Absent [] vs
unfolding lookup
empty-Absent [] = tt
empty-Absent (v ∷ vs) = (refl, empty-Absent vs)
