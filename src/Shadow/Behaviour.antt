-- ===== src/Shadow/Behaviour.antt =====
-- What a shadow VM of shadow.rs leaves behind in the pool and in the cache.
use containerd_cloudhypervis.Common.{
  ◌+◌, ◌^◌, ◌<◌, ◌≡◌, ◌≢◌, refl, subst, Bool, true, false, ◌&&◌, some, ◌∷◌, Text, Result, ok, arith,
  length, Text-discrete,
}
use containerd_cloudhypervis.Pool.State.{Pool, PoolVm, Error as PoolError}
use containerd_cloudhypervis.Pool.Restore.{on_host}
use containerd_cloudhypervis.Pool.Ops.{acquire, release, get_active}
use containerd_cloudhypervis.Pool.Invariant.{Inv, Frame-Inv}
use containerd_cloudhypervis.Pool.Preserve.{acquire-Inv}
use containerd_cloudhypervis.Pool.Behaviour.{acquire-get_active, acquire-was_free, release-forgets}
use containerd_cloudhypervis.Shadow.Cache.{cache_snapshot}
use containerd_cloudhypervis.Shadow.Task.{
  Manager, ShadowTrial, run_shadow, shadow_dir, snapshot_dir,
}

-- The steps of `run_shadow` between the acquire and the release.
abbrev pub all_steps : ShadowTrial → Bool
all_steps t =
    t.plugged && t.connected && t.started && t.cache_dir_made && t.paused && t.snapshotted
    && t.stripped

-- The pool that the shadow VM is acquired from: the shadow's own directory has been made.
abbrev pub with_shadow_dir : Text → Manager → Pool
with_shadow_dir image_key s =
    on_host (λ h. record h { dirs = shadow_dir image_key s.pool ∷ h.dirs }) s.pool

module _ (image_key : Text) (t : ShadowTrial) (s : Manager) {vm : PoolVm} {q : Pool}
    (made : t.dir_made ≡ true)
    (acquired : acquire t.restore (with_shadow_dir image_key s) ≡ (ok vm, q)) (v : Inv s.pool)
    (room : s.pool.next_cid + 1 < 2 ^ 64) where
  with_shadow_dir-Inv : Inv (with_shadow_dir image_key s)
  with_shadow_dir-Inv = Frame-Inv s.pool.next_cid s.pool _ (ground arith) (omega arith) v

  -- Let the pool satisfy the invariant, its CID counter not have run out, and a shadow VM be
  -- acquired from it. Any failure after the acquire leaves the VM active for good: `run_shadow`
  -- reports an error, and the VM that it alone knows of stays registered, in the pool as the
  -- acquire left it.
  pub run_shadow_leaks :
      all_steps t ≡ false
      → let (r, s') = run_shadow image_key t s in
        (r ≢ ok tt) × (s'.pool ≡ q) × (get_active vm.vm_id s'.pool ≡ some vm)
  unfolding run_shadow
  run_shadow_leaks f = (
    (λ e. ground arith),
    ground arith,
    ground (arith, acquire-get_active t.restore _ q vm vm.vm_id room acquired),
  )

  acquired-Inv : Inv q
  acquired-Inv =
      subst (λ (x : Result PoolError PoolVm × Pool). Inv x.1) acquired
        (acquire-Inv t.restore (with_shadow_dir image_key s) room with_shadow_dir-Inv)

  same_active : (j : Text) → get_active j (with_shadow_dir image_key s) ≡ get_active j s.pool
  same_active j = unfold get_active in refl

  -- An acquire followed by the release of its VM keeps the active VMs.
  get_active-release :
      length q.active < 2 ^ 64
      → (j : Text)
      → get_active j (release vm.vm_id t.pid_file q) ≡ get_active j (with_shadow_dir image_key s)
  get_active-release h j =
      let (gone, same, idle, count) = release-forgets vm.vm_id t.pid_file q acquired-Inv h in
      ground (
        arith,
        gone,
        same j,
        Text-discrete vm.vm_id j,
        acquire-get_active t.restore _ q vm j room acquired,
        acquire-was_free t.restore _ q vm with_shadow_dir-Inv acquired,
      )

  -- Let the pool satisfy the invariant, its CID counter not have run out, a shadow VM be acquired
  -- from it, and fewer than 2^64 VMs be active then. If every step succeeds, the snapshot is
  -- cached under the image's key as `cache_snapshot` does it, and the VM is given back: the active
  -- VMs are those from before, and no idle VM was lost but the one that the acquire took.
  pub run_shadow_returns :
      all_steps t ≡ true
      → length q.active < 2 ^ 64
      → let (r, s') = run_shadow image_key t s in
        (r ≡ ok tt)
        × ((j : Text) → get_active j s'.pool ≡ get_active j s.pool)
        × (s'.pool.ready ≡ q.ready)
        × (s'.snapshots
            ≡ cache_snapshot image_key
                (record {
                  dir = snapshot_dir image_key s.pool;
                  last_used = t.now;
                  erofs_mtime = t.erofs_mtime;
                })
                (record s.snapshots { disk = snapshot_dir image_key s.pool ∷ s.snapshots.disk }))
  unfolding run_shadow
  run_shadow_returns a h =
      let (gone, same, idle, count) = release-forgets vm.vm_id t.pid_file q acquired-Inv h in
      (
        ground arith,
        (λ j. ground (arith, get_active-release h j, same_active j)),
        ground (arith, idle),
        ground arith,
      )
