-- ===== src/Shadow/Task.antt =====
-- shadow.rs `run_shadow` and `restore_from_snapshot`: the life of one shadow VM and of a warm
-- restore. Outcomes of the environment are given with each call.
use containerd_cloudhypervis.Common.{
  join, ℕ, Bool, true, false, Option, none, some, ◌∷◌, ◌++◌, Text, codes, show_dec, Result, ok, err,
}
use containerd_cloudhypervis.Pool.State.{Pool, PoolVm, Host}
use containerd_cloudhypervis.Pool.State
use containerd_cloudhypervis.Pool.Restore.{Trial, on_host}
use containerd_cloudhypervis.Pool.Restore
use containerd_cloudhypervis.Pool.Ops.{acquire, release}
use containerd_cloudhypervis.Shadow.Cache.{Snapshots, get_snapshot_dir, cache_snapshot}

-- The snapshot manager with the pool that it draws on.
pub record Manager : Type 0 where
  pub pool : Pool
  pub snapshots : Snapshots

pub data Error : Type 0 where
  pool_error : State.Error → Error
  snapshot_not_found create_dir hot_plug agent_connect run_container ch_api strip_config : Error

abbrev pub M : Type 0 → Type 0
M A = Manager → Result Error A × Manager

infixl 5 ◌>>=◌ ◌>>◌
abbrev pub ◌>>=◌ : {A B : Type 0} → M A → (A → M B) → M B
◌>>=◌ m f s = let (r, t) = m s in elim r [ ok a ↦ f a t | err e ↦ (err e, t) ]

abbrev pub ◌>>◌ : {B : Type 0} → M (Unit {0}) → M B → M B
m >> k = m >>= λ _. k

abbrev pub attempt : Bool → Error → M (Unit {0})
attempt true e s = (ok tt, s)
attempt false e s = (err e, s)

abbrev pub modify : (Manager → Manager) → M (Unit {0})
modify f s = (ok tt, f s)

abbrev pub return : {A : Type 0} → A → M A
return a s = (ok a, s)

-- An operation of the pool, called by the snapshot manager.
abbrev pub in_pool : {A : Type 0} → State.M A → M A
in_pool m s =
    let (r, q) = m s.pool in
    elim r [
      | ok a ↦ (ok a, record s { pool = q })
      | err e ↦ (err (pool_error e), record s { pool = q })
    ]

pub record ShadowTrial : Type 0 where
  pub dir_made : Bool
  pub restore : Trial
  pub plugged : Bool
  pub connected : Bool
  pub started : Bool
  pub cache_dir_made : Bool
  pub paused : Bool
  pub snapshotted : Bool
  pub stripped : Bool
  pub erofs_mtime : Option ℕ
  pub now : ℕ
  pub pid_file : Option ℕ

abbrev pub shadow_dir : Text → Pool → Text
shadow_dir image_key p =
    join p.state_dir (codes "shadow-" ++ image_key ++ b'-' ∷ show_dec p.daemon_pid)

abbrev pub snapshot_dir : Text → Pool → Text
snapshot_dir image_key p = join (join p.state_dir (codes "snapshot-cache")) image_key

abbrev write_snapshot : Text → Manager → Manager
write_snapshot dir s = record s { snapshots = record s.snapshots { disk = dir ∷ s.snapshots.disk } }

unfoldable pub run_shadow : Text → ShadowTrial → M (Unit {0})
unfolding Restore.make_dir
run_shadow image_key t s =
    (do
      in_pool (Restore.make_dir (shadow_dir image_key s.pool) t.dir_made)
      pool_vm ← in_pool (acquire t.restore)
      attempt t.plugged hot_plug
      attempt t.connected agent_connect
      attempt t.started run_container
      let snap_dir = snapshot_dir image_key s.pool
      attempt t.cache_dir_made create_dir
      attempt t.paused ch_api
      attempt t.snapshotted ch_api
      modify (write_snapshot snap_dir)
      attempt t.stripped strip_config
      modify (λ m. record m {
        snapshots =
            cache_snapshot image_key
              (record { dir = snap_dir; last_used = t.now; erofs_mtime = t.erofs_mtime })
              m.snapshots;
      })
      modify (λ m. record m { pool = release pool_vm.vm_id t.pid_file m.pool }))
      s

-- How the steps of a warm restore come out, after the snapshot was found.
pub record WarmTrial : Type 0 where
  pub linked : Bool
  pub spawned : Option ℕ
  pub pid_written : Bool
  pub api_ready : Bool
  pub restored : Bool
  pub resumed : Bool
  pub now : ℕ

abbrev pub found_dir : Option Text × Snapshots → M Text
found_dir (none, c) s = (err snapshot_not_found, record s { snapshots = c })
found_dir (some dir, c) s = (ok dir, record s { snapshots = c })

-- The pid of the process, with the paths of its two sockets.
unfoldable pub restore_from_snapshot : Text → Text → WarmTrial → M (ℕ × Text × Text)
unfolding Restore.spawn_ch
restore_from_snapshot image_key state_dir t = do
  (λ s. found_dir (get_snapshot_dir image_key t.now s.snapshots) s) >>= λ snap_dir. do
    in_pool (State.attempt t.linked State.link_snapshot)
    ch_pid ← in_pool (Restore.spawn_ch t.spawned t.pid_written)
    in_pool (State.attempt t.api_ready State.ch_not_ready)
    in_pool (State.attempt t.restored State.ch_api)
    in_pool (State.attempt t.resumed State.ch_api)
    return (ch_pid, join state_dir (codes "api.sock"), join state_dir (codes "vsock.sock"))
