-- ===== src/Agent/Manager/State.antt =====
-- The state of container.rs `ContainerManager`, and the chains of fallible steps on it.
use containerd_cloudhypervis.Common.{
  ℕ, Bool, true, false, Option, none, some, List, [], Text, Result, ok, err,
}

pub data ContainerState : Type 0 where
  created running stopped : ContainerState

pub ContainerState-discrete : Discrete ContainerState
ContainerState-discrete = hlevel

pub data ProtoState : Type 0 where
  unknown created running stopped : ProtoState

pub record StateResponse : Type 0 where
  pub pid : ℕ
  pub status : ProtoState
  pub exit_status : ℕ

abbrev pub to_proto : ContainerState → ProtoState
to_proto ContainerState.created = ProtoState.created
to_proto ContainerState.running = ProtoState.running
to_proto ContainerState.stopped = ProtoState.stopped

-- An exit code is an `i32`; its bit pattern stands for it.
pub record Container : Type 0 where
  pub pid : Option ℕ
  pub exit_code : Option ℕ
  pub state : ContainerState

pub record ContainerLogs : Type 0 where
  pub stdout : Text
  pub stderr : Text
  pub eof : Bool

pub record ExitStatus : Type 0 where
  pub code : ℕ
  pub exited_at : ℕ

pub data Mount : Type 0 where
  erofs : Text → Text → Mount
  overlay : List Text → Text → Mount

-- `exit_receivers` holds what the watch channel of a container shows now. `mounts` and `crun_kills`
-- record the mounts that were made and the ids that `crun kill` was run on, newest first.
pub record Manager : Type 0 where
  pub containers : List (Text × Container)
  pub exit_receivers : List (Text × Option ExitStatus)
  pub logs : List (Text × ContainerLogs)
  pub mounts : List Mount
  pub crun_kills : List Text

pub data Error : Type 0 where
  no_layers io_failed no_device mount_failed no_config not_found spawn_failed : Error
  crun_failed no_pid : Error

abbrev pub M : Type 0 → Type 0
M A = Manager → Result Error A × Manager

infixl 5 ◌>>=◌ ◌>>◌
abbrev pub ◌>>=◌ : {A B : Type 0} → M A → (A → M B) → M B
◌>>=◌ m f s = let (r, t) = m s in elim r [ ok a ↦ f a t | err e ↦ (err e, t) ]

abbrev pub ◌>>◌ : {B : Type 0} → M (Unit {0}) → M B → M B
m >> k = m >>= λ _. k

abbrev pub attempt : Bool → Error → M (Unit {0})
attempt true e s = (ok tt, s)
attempt false e s = (err e, s)

abbrev pub attempt_with : {A : Type 0} → Option A → Error → M A
attempt_with (some a) e s = (ok a, s)
attempt_with none e s = (err e, s)

abbrev pub modify : (Manager → Manager) → M (Unit {0})
modify f s = (ok tt, f s)

abbrev pub gets : {A : Type 0} → (Manager → A) → M A
gets f s = (ok (f s), s)

abbrev pub return : {A : Type 0} → A → M A
return a s = (ok a, s)

unfoldable pub new : Manager
new = record { containers = []; exit_receivers = []; logs = []; mounts = []; crun_kills = [] }
