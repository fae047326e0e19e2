-- ===== src/Shim/Instance.antt =====
-- The state of crates/shim/src/instance.rs: the table `VMS`, the exit cells of the instances, and the
-- record of the requests to the daemon.
use containerd_cloudhypervis.Common.{
  ℕ, ◌%◌, ◌^◌, Option, none, some, List, ◌∷◌, Text, Result, ok, err,
}

-- `container_count` counts the sandbox as one. All counts are `usize` and wrap.
pub record SharedVmState : Type 0 where
  pub ch_pid : ℕ
  pub container_count : ℕ
  pub tap_name : Option Text
  pub netns : Option Text
  pub cgroups_path : Option Text
  pub daemon_vm_id : Text
  pub daemon_socket : Text

-- A request to the daemon, as crates/shim/src/daemon_client.rs sends it, or the clean-up of a TAP.
pub data Request : Type 0 where
  acquire_sandbox : Text → Text → Text → Text → Request
  release_sandbox : Text → Request
  add_container : Text → Text → Text → Request
  kill_container : Text → Text → ℕ → Request
  delete_container : Text → Text → Request
  cleanup_tap : Text → Text → Request

-- What an instance is made with. The exit cell of an instance is in the shim's `exits`.
pub record Instance : Type 0 where
  pub id : Text
  pub sandbox_id : Text

-- `requests` is newest first. `cgroups` are the processes placed in a cgroup.
pub record Shim : Type 0 where
  pub vms : List (Text × SharedVmState)
  pub exits : List (Text × ℕ)
  pub requests : List Request
  pub cgroups : List (ℕ × Text)

pub data Error : Type 0 where
  config_error sandbox_not_found erofs_failed add_failed acquire_failed : Error

abbrev pub M : Type 0 → Type 0
M A = Shim → Result Error A × Shim

infixl 5 ◌>>=◌ ◌>>◌
abbrev pub ◌>>=◌ : {A B : Type 0} → M A → (A → M B) → M B
◌>>=◌ m f s = let (r, t) = m s in elim r [ ok a ↦ f a t | err e ↦ (err e, t) ]

abbrev pub ◌>>◌ : {B : Type 0} → M (Unit {0}) → M B → M B
m >> k = m >>= λ _. k

abbrev pub return : {A : Type 0} → A → M A
return a s = (ok a, s)

abbrev pub attempt_with : {A : Type 0} → Option A → Error → M A
attempt_with (some a) e s = (ok a, s)
attempt_with none e s = (err e, s)

abbrev pub modify : (Shim → Shim) → M (Unit {0})
modify f s = (ok tt, f s)

abbrev pub gets : {A : Type 0} → (Shim → A) → M A
gets f s = (ok (f s), s)

abbrev pub request : Request → Shim → Shim
request r s = record s { requests = r ∷ s.requests }

-- `AtomicUsize` on a 64-bit machine.
abbrev pub usize : ℕ → ℕ
usize n = n % 2 ^ 64
