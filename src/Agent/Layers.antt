-- ===== src/Agent/Layers.antt =====
-- What `create` of container.rs mounts.
use containerd_cloudhypervis.Common.{
  ℕ, zero, suc, ◌+◌, ◌<◌, ◌≡◌, inl, inr, none, some, List, [], ◌∷◌, ◌++◌, Text, codes, ok, lookup,
  lookup-insert, arith, Result-cases,
}
use containerd_cloudhypervis.Agent.Manager.{
  Manager, Mount, erofs, overlay, created, CreateTrial, LayerTrial, create, create_rest,
  mount_layers, device, layer_dir, mount_point, add_mount,
}

-- The mounts of layers `i` to `i + n - 1`, newest first, on top of `ms`.
abbrev pub layer_mounts : ℕ → ℕ → Text → List Mount → List Mount
layer_mounts zero i dir ms = ms
layer_mounts (suc n) i dir ms = layer_mounts n (i + 1) dir (erofs (device i) (layer_dir dir i) ∷ ms)

abbrev pub layer_dirs : ℕ → ℕ → Text → List Text
layer_dirs zero i dir = []
layer_dirs (suc n) i dir = layer_dir dir i ∷ layer_dirs n (i + 1) dir

mount_layers-ok :
    (n i : ℕ) (layers : ℕ → LayerTrial) (dir : Text) (s : Manager) (ds : List Text)
    → (mount_layers n i layers dir s).0 ≡ ok ds
    → (ds ≡ layer_dirs n i dir)
      × ((mount_layers n i layers dir s).1.mounts ≡ layer_mounts n i dir s.mounts)
unfolding mount_layers
mount_layers-ok zero i layers dir s ds h = ground arith
mount_layers-ok (suc n) i layers dir s ds h =
    let next = add_mount (erofs (device i) (layer_dir dir i)) s in
    elim (Result-cases (mount_layers n (i + 1) layers dir next).0) [
      | inl (ds', e) ↦
          let rest = mount_layers-ok n (i + 1) layers dir next ds' e in ground (arith, rest, e)
      | inr (x, e) ↦ ground (arith, e)
    ]

create_rest-ok :
    (id : Text) (t : CreateTrial) (ds : List Text) (s : Manager) (pid : ℕ)
    → (create_rest id t ds s).0 ≡ ok pid
    → let after = (create_rest id t ds s).1 in
      (pid ≡ t.agent_pid)
      × (after.mounts ≡ overlay ds (mount_point id ++ codes "/rootfs") ∷ s.mounts)
      × (lookup id after.containers
          ≡ some (record { pid = some pid; exit_code = none; state = created }))
unfolding create_rest
create_rest-ok id t ds s pid h = ground (
  arith,
  lookup-insert id id (record { pid = some t.agent_pid; exit_code = none; state = created })
      s.containers,
)

-- A container that is created has its erofs layers mounted from `/dev/vdb` on, one device after the
-- other, and then one overlay of exactly these layers at the rootfs of the container; and it is
-- recorded as created, with the pid of the agent's own process, which is also the answer.
pub create-mounts :
    (id : Text) (t : CreateTrial) (s : Manager) (pid : ℕ)
    → (create id t s).0 ≡ ok pid
    → let after = (create id t s).1 in
      (after.mounts
        ≡ overlay (layer_dirs t.erofs_layers 0 (mount_point id)) (mount_point id ++ codes "/rootfs")
          ∷ layer_mounts t.erofs_layers 0 (mount_point id) s.mounts)
      × (lookup id after.containers
          ≡ some (record { pid = some pid; exit_code = none; state = created }))
      × (0 < t.erofs_layers)
      × (pid ≡ t.agent_pid)
unfolding create
create-mounts id t s pid h =
    let m = mount_layers t.erofs_layers 0 t.layers (mount_point id) s in
    elim (Result-cases m.0) [
      | inl (ds, e) ↦
          let made = mount_layers-ok t.erofs_layers 0 t.layers (mount_point id) s ds e in
          let after = create_rest-ok id t ds m.1 pid in ground (arith, made, after)
      | inr (x, e) ↦ ground (arith, e)
    ]

abbrev pub one_layer : Text → List Mount → List Mount
one_layer id ms =
    overlay (layer_dir (mount_point id) 0 ∷ []) (mount_point id ++ codes "/rootfs")
    ∷ erofs (codes "/dev/vdb") (layer_dir (mount_point id) 0)
    ∷ ms

-- Two containers of one layer each, as the daemon runs them, created one after the other: both have
-- their layer mounted from the same device `/dev/vdb`, whatever disks were hot-plugged for them.
pub create-same_device :
    (a b : Text) (t u : CreateTrial) (s : Manager) (pid pid' : ℕ)
    → t.erofs_layers ≡ 1
    → u.erofs_layers ≡ 1
    → (create a t s).0 ≡ ok pid
    → (create b u (create a t s).1).0 ≡ ok pid'
    → (create b u (create a t s).1).1.mounts ≡ one_layer b (one_layer a s.mounts)
unfolding device
create-same_device a b t u s pid pid' x y h k =
    let first = create-mounts a t s pid h in
    let second = create-mounts b u (create a t s).1 pid' k in ground (arith, first, second)
