-- ===== src/Agent/Manager/Create.antt =====
-- container.rs `create`: the erofs layers, the overlay and the bookkeeping.
use containerd_cloudhypervis.Common.{
  ℕ, zero, suc, ◌+◌, ◌%◌, Bool, true, false, none, some, List, [], ◌∷◌, ◌++◌, Text, codes, show_dec,
  insert, if◌then◌else◌, ◌==◌,
}
use containerd_cloudhypervis.Agent.Manager.State.{
  created, Container, Mount, erofs, overlay, Manager, no_layers, io_failed, no_device, mount_failed,
  no_config, M, ◌>>=◌, ◌>>◌, attempt, modify, return,
}

-- How one round of the loop over the layers comes out.
pub record LayerTrial : Type 0 where
  pub dir_made : Bool
  pub appeared : Bool
  pub mounted : Bool

-- How the steps of one `create` come out. `agent_pid` is `std::process::id()`.
pub record CreateTrial : Type 0 where
  pub erofs_layers : ℕ
  pub dirs_made : Bool
  pub layers : ℕ → LayerTrial
  pub overlay_mounted : Bool
  pub config_inline : Bool
  pub config_on_disk : Bool
  pub config_written : Bool
  pub volumes_written : Bool
  pub spec_adapted : Bool
  pub agent_pid : ℕ

abbrev pub set_container : Text → Container → Manager → Manager
set_container id c s = record s { containers = insert id c s.containers }

abbrev pub add_mount : Mount → Manager → Manager
add_mount m s = record s { mounts = m ∷ s.mounts }

-- `format!("/dev/vd{}", (b'b' + i as u8) as char)`, in both branches of the test of
-- `rootfs_preattached`; the byte addition wraps.
unfoldable pub device : ℕ → Text
device i = codes "/dev/vd" ++ ((b'b' + i % 256) % 256) ∷ []

unfoldable pub mount_point : Text → Text
mount_point id = codes "/run/containers/" ++ id

unfoldable pub layer_dir : Text → ℕ → Text
layer_dir dir i = dir ++ codes "/layer" ++ show_dec i

-- The loop over the layers: `n` rounds are left, the next is `i`. The result is `lowerdirs`.
unfoldable pub mount_layers : ℕ → ℕ → (ℕ → LayerTrial) → Text → M (List Text)
mount_layers zero i layers dir = return []
mount_layers (suc n) i layers dir = do
  attempt (layers i).dir_made io_failed
  attempt (layers i).appeared no_device
  attempt (layers i).mounted mount_failed
  modify (add_mount (erofs (device i) (layer_dir dir i)))
  rest ← mount_layers n (i + 1) layers dir
  return (layer_dir dir i ∷ rest)

abbrev config_step : CreateTrial → M (Unit {0})
config_step t =
    if t.config_inline
    then attempt t.config_written io_failed
    else attempt t.config_on_disk no_config

-- What `create` does once the layers are mounted.
unfoldable pub create_rest : Text → CreateTrial → List Text → M ℕ
create_rest id t lowerdirs = do
  attempt t.overlay_mounted mount_failed
  modify (add_mount (overlay lowerdirs (mount_point id ++ codes "/rootfs")))
  config_step t
  attempt t.volumes_written io_failed
  attempt t.spec_adapted io_failed
  modify (set_container id (record { pid = some t.agent_pid; exit_code = none; state = created }))
  return t.agent_pid

unfoldable pub create : Text → CreateTrial → M ℕ
unfolding create_rest mount_point
create id t = do
  attempt (if t.erofs_layers == 0 then false else true) no_layers
  attempt t.dirs_made io_failed
  lowerdirs ← mount_layers t.erofs_layers 0 t.layers (mount_point id)
  create_rest id t lowerdirs
