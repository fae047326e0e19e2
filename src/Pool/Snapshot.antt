-- ===== src/Pool/Snapshot.antt =====
-- vm_lifecycle.rs `prepare_snapshot`: the directory from which one VM is restored.
use containerd_cloudhypervis.Common.{
  ℕ, Bool, true, false, Option, none, some, List, Text, codes, Result, ok, err, join, insert,
  if◌then◌else◌, ◌==◌, ite, Text-discrete,
}
use containerd_cloudhypervis.Json.{JsonOps, on_object, on_member}

-- A file: the same file as another one, a copy of it, a new empty one, or a document.
pub data File (V : Type 0) : Type 0 where
  linked_to copy_of : Text → File V
  empty : File V
  document : V → File V

pub data SnapshotError : Type 0 where
  create_dir read_config create_console write_config : SnapshotError
  link_failed : Text → SnapshotError

-- How `hard_link` ends, and the copy that is tried after EXDEV.
pub data Linked : Type 0 where
  linked : Linked
  refused : ℕ → Bool → Linked

-- What the file system decides; `config` is what config.json in the base directory holds, if it can
-- be read.
pub record SnapshotTrial (V : Type 0) : Type 0 where
  pub dir_made : Bool
  pub memory : Linked
  pub state : Linked
  pub config : Option V
  pub console_made : Bool
  pub written : Bool

-- The files that have been made, by their paths.
abbrev pub Files : Type 0 → Type 0
Files V = List (Text × File V)

abbrev pub M : Type 0 → Type 0 → Type 0
M V A = Files V → Result SnapshotError A × Files V

infixl 5 ◌>>=◌ ◌>>◌
abbrev pub ◌>>=◌ : {V A B : Type 0} → M V A → (A → M V B) → M V B
◌>>=◌ m f d = let (r, d') = m d in elim r [ ok a ↦ f a d' | err e ↦ (err e, d') ]

abbrev pub ◌>>◌ : {V B : Type 0} → M V (Unit {0}) → M V B → M V B
m >> k = m >>= (λ _. k)

unfoldable pub attempt : {V : Type 0} → Bool → SnapshotError → M V (Unit {0})
attempt true e d = (ok tt, d)
attempt false e d = (err e, d)

unfoldable pub attempt_with : {V A : Type 0} → Option A → SnapshotError → M V A
attempt_with none e d = (err e, d)
attempt_with (some a) e d = (ok a, d)

unfoldable pub put_file : {V : Type 0} → Text → File V → M V (Unit {0})
put_file path file d = (ok tt, insert path file d)

unfoldable pub link_file : {V : Type 0} → Text → Text → Text → Linked → M V (Unit {0})
link_file base_dir work_dir name linked =
    put_file (join work_dir name) (linked_to (join base_dir name))
link_file base_dir work_dir name (refused errno copied) =
    if errno == 18
    then attempt copied (link_failed name)
      >> put_file (join work_dir name) (copy_of (join base_dir name))
    else attempt false (link_failed name)

-- `J` is `serde_json`.
module _ (J : JsonOps) where
  unfoldable pub patch_vsock : ℕ → Text → J.Fields → J.Fields
  patch_vsock cid socket vsock =
      J.insert (codes "socket") (J.text socket) (J.insert (codes "cid") (J.number cid) vsock)

  -- `and_then(|v| v.as_str()) == Some("File")`
  unfoldable pub is_file : Option J.Value → Bool
  unfolding Text-discrete
  is_file none = false
  is_file (some v) = elim (J.as_text v) [
    | none ↦ false
    | some t ↦ ite (Text-discrete t (codes "File")) true false
  ]

  unfoldable pub patch_serial : Text → J.Fields → J.Fields
  unfolding is_file
  patch_serial console serial =
      if is_file (J.get (codes "mode") serial)
      then J.insert (codes "file") (J.text console) serial
      else serial

  unfoldable pub patch_config : ℕ → Text → Text → J.Fields → J.Fields
  patch_config cid socket console config =
      on_member J (codes "serial") (patch_serial console)
        (on_member J (codes "vsock") (patch_vsock cid socket) config)

  -- From the reading of the base's config.json on.
  unfoldable pub write_config_in : Text → Text → ℕ → Text → SnapshotTrial J.Value → M J.Value Text
  write_config_in work_dir vm_state_dir new_cid new_vsock_socket t = do
    config ← attempt_with t.config read_config
    let console_path = join vm_state_dir (codes "console.log")
    attempt t.console_made create_console
    put_file console_path empty
    attempt t.written write_config
    let patched = on_object J (patch_config new_cid new_vsock_socket console_path) config
    put_file (join work_dir (codes "config.json")) (document patched)
    (λ d. (ok work_dir, d))

  unfoldable pub prepare_snapshot : Text → Text → ℕ → Text → SnapshotTrial J.Value → M J.Value Text
  prepare_snapshot base_dir vm_state_dir new_cid new_vsock_socket t = do
    let work_dir = join vm_state_dir (codes "snapshot")
    attempt t.dir_made create_dir
    link_file base_dir work_dir (codes "memory-ranges") t.memory
    link_file base_dir work_dir (codes "state.json") t.state
    write_config_in work_dir vm_state_dir new_cid new_vsock_socket t
