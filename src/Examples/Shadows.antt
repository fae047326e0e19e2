-- ===== src/Examples/Shadows.antt =====
-- Runs of the models of shadow.rs.
use containerd_cloudhypervis.Common.{
  ℕ, ◌≤◌, ◌≡◌, ◌≢◌, refl, Bool, true, false, none, some, List, [], ◌∷◌, Text, codes, ok, arith,
  length, lookup, insert, remove, Distinct,
}
use containerd_cloudhypervis.Pool.State.{Pool}
use containerd_cloudhypervis.Pool.Ops.{acquire, get_active}
use containerd_cloudhypervis.Shadow.Cache.{
  SnapshotEntry, Snapshots, has_snapshot, cache_snapshot, evict,
}
use containerd_cloudhypervis.Shadow.Lookup.{
  has_snapshot-valid, cache_snapshot-bounded, cache_snapshot-lru,
}
use containerd_cloudhypervis.Shadow.Task.{Manager, ShadowTrial, run_shadow, snapshot_dir}
use containerd_cloudhypervis.Shadow.Behaviour.{run_shadow_returns, with_shadow_dir}
use containerd_cloudhypervis.Shadow.Trigger.{Tasks, Reach, occurs, shadow_gets_stuck}
use containerd_cloudhypervis.Shadow.Consistency.{
  IsConsistent, Event, triggers, ends, run, run-IsConsistent,
}
use containerd_cloudhypervis.Shadow.Cmdline.{strip_ip}
use containerd_cloudhypervis.Examples.Pools.{idle, idle-Inv, first_vm, good}

abbrev entry : Text → ℕ → SnapshotEntry
entry dir used = record { dir = dir; last_used = used; erofs_mtime = some 70 }

-- Two images in a cache for two.
abbrev pub full : Snapshots
full = record {
  max_snapshots = 2;
  entries =
      (codes "nginx", entry (codes "/s/nginx") 5)
      ∷ (codes "redis", entry (codes "/s/redis") 3)
      ∷ [];
  disk = codes "/s/nginx" ∷ codes "/s/redis" ∷ [];
}

full-Distinct : Distinct full.entries
unfolding lookup
full-Distinct = (refl, (refl, tt))

has_snapshot-valid_example :
    let (found, t) = has_snapshot (codes "redis") (some (some 71)) full in
    (found ≡ true
      → (t ≡ full)
        × ((e : SnapshotEntry) × (lookup (codes "redis") full.entries ≡ some e)
            × ((now m : ℕ) → some (some 71) ≡ some (some now) → e.erofs_mtime ≡ some m → now ≡ m)))
    × (found ≡ false → lookup (codes "redis") t.entries ≡ none)
    × ((j : Text) → codes "redis" ≢ j → lookup j t.entries ≡ lookup j full.entries)
has_snapshot-valid_example = has_snapshot-valid (codes "redis") (some (some 71)) full full-Distinct

abbrev fresh : SnapshotEntry
fresh = entry (codes "/s/envoy") 9

cache_snapshot-bounded_example :
    let t = cache_snapshot (codes "envoy") fresh full in
    (length t.entries ≤ 2)
    × Distinct t.entries
    × (lookup (codes "envoy") t.entries ≡ some fresh)
    × ((j : Text) (f : SnapshotEntry)
        → codes "envoy" ≢ j
        → lookup j t.entries ≡ some f
        → lookup j full.entries ≡ some f)
cache_snapshot-bounded_example =
    cache_snapshot-bounded (codes "envoy") fresh full full-Distinct (omega arith)

cache_snapshot-lru_example : 3 ≤ 5
unfolding cache_snapshot evict lookup insert remove
cache_snapshot-lru_example =
    cache_snapshot-lru (codes "envoy") (codes "redis") (codes "nginx") fresh
      (entry (codes "/s/redis") 3) (entry (codes "/s/nginx") 5) full full-Distinct
      (λ e. ground arith) (λ e. ground arith) refl refl refl

abbrev trial : Bool → ShadowTrial
trial plugged = record {
  dir_made = true;
  restore = good 1001;
  plugged = plugged;
  connected = true;
  started = true;
  cache_dir_made = true;
  paused = true;
  snapshotted = true;
  stripped = true;
  erofs_mtime = some 70;
  now = 9;
  pid_file = some 1000;
}

abbrev manager : Manager
manager = record { pool = idle; snapshots = full }

abbrev taken : Pool
taken = record (with_shadow_dir (codes "envoy") manager) {
  ready = [];
  active = (first_vm.vm_id, first_vm) ∷ [];
  active_count = 1;
}

run_shadow_returns_example :
    let (r, s') = run_shadow (codes "envoy") (trial true) manager in
    (r ≡ ok tt)
    × ((j : Text) → get_active j s'.pool ≡ get_active j idle)
    × (s'.pool.ready ≡ [])
    × (s'.snapshots
        ≡ cache_snapshot
            (codes "envoy")
            (record {
              dir = snapshot_dir (codes "envoy") idle;
              last_used = 9;
              erofs_mtime = some 70;
            })
            (record full { disk = snapshot_dir (codes "envoy") idle ∷ full.disk }))
unfolding acquire insert
run_shadow_returns_example =
    run_shadow_returns (codes "envoy") (trial true) manager refl refl idle-Inv (omega arith) refl
      (omega arith)

abbrev quiet : Tasks
quiet = record { active_shadows = []; pending = []; running = [] }

shadow_gets_stuck_example :
    (t : Tasks) × Reach quiet t
    × ((u : Tasks)
        → Reach t u
        → (lookup (codes "redis") u.active_shadows ≡ some tt)
          × (occurs (codes "redis") u.running ≡ 0))
unfolding lookup occurs
shadow_gets_stuck_example = shadow_gets_stuck (codes "redis") quiet refl refl refl

quiet-IsConsistent : IsConsistent quiet
unfolding lookup occurs
quiet-IsConsistent = record { distinct = tt; settled = refl; matched = λ key. refl }

abbrev events : List Event
events = triggers false (codes "redis") ∷ triggers false (codes "redis") ∷ ends (codes "redis") ∷ []

run-IsConsistent_example : IsConsistent (run events quiet)
run-IsConsistent_example = run-IsConsistent events quiet quiet-IsConsistent

stripped_test : strip_ip (codes "ro ip=10.0.0.2 quiet") ≡ codes "ro quiet"
unfolding strip_ip
stripped_test = refl
