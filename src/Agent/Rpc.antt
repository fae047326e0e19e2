-- ===== src/Agent/Rpc.antt =====
-- server.rs: the handlers that lock the container manager for one operation, and what the server
-- does when it is told to stop.
use containerd_cloudhypervis.Common.{ℕ, Bool, Option, Text, Result, ok, err, List, map}
use containerd_cloudhypervis.Agent.Manager.{
  Manager, Error, StateResponse, create, CreateTrial, start, run, kill, KillOutcome, delete, adopt,
  state, signal_all,
}
use containerd_cloudhypervis.Agent.Paths.{InlineFileInfo, VolumeInfo}

-- The errors of the handlers, by the text before that of the manager's error.
pub data RpcError : Type 0 where
  create_container_failed start_container_failed run_container_failed : Error → RpcError
  kill_container_failed delete_container_failed adopt_container_failed : Error → RpcError
  unimplemented : RpcError

abbrev pub Handler : Type 0 → Type 0
Handler A = Manager → Result RpcError A × Manager

-- `map_err`.
reported :
    {A : Type 0} → (Error → RpcError) → Result Error A × Manager → Result RpcError A × Manager
reported name (ok a, s) = (ok a, s)
reported name (err e, s) = (err (name e), s)

-- A volume as the request has it; `volume_type` is the number of its kind, 1 for a block device.
pub record VolumeMount : Type 0 where
  pub destination : Text
  pub source : Text
  pub readonly : Bool
  pub is_block_type : Bool
  pub fs_type : Text
  pub files : List InlineFileInfo

unfoldable pub proto_volumes_to_info : List VolumeMount → List VolumeInfo
proto_volumes_to_info = map (λ v. record {
  destination = v.destination;
  source = v.source;
  readonly = v.readonly;
  is_block = v.is_block_type;
  fs_type = v.fs_type;
  inline_files = v.files;
})

unfoldable pub create_container : Text → CreateTrial → Handler ℕ
unfolding reported
create_container id t s = reported create_container_failed (create id t s)

unfoldable pub start_container : Text → Option ℕ → Handler ℕ
unfolding reported
start_container id spawned s = reported start_container_failed (start id spawned s)

unfoldable pub run_container : Text → CreateTrial → Option ℕ → Handler ℕ
unfolding reported
run_container id t spawned s = reported run_container_failed (run id t spawned s)

unfoldable pub kill_container : Text → KillOutcome → Handler (Unit {0})
unfolding reported
kill_container id out s = reported kill_container_failed (kill id out s)

-- The pid and the exit code.
unfoldable pub delete_container : Text → Bool → Handler (ℕ × ℕ)
unfolding reported
delete_container id executed s = reported delete_container_failed (delete id executed s)

unfoldable pub exec_process : Handler (Unit {0})
exec_process s = (err unimplemented, s)

unfoldable pub state_container : Text → Handler StateResponse
state_container id s = (ok (state id s), s)

unfoldable pub adopt_container : Text → Text → Handler ℕ
unfolding reported
adopt_container old new s = reported adopt_container_failed (adopt old new s)

-- After SIGTERM or SIGINT.
unfoldable pub shut_down : (Text → KillOutcome) → Manager → Manager
shut_down out s = signal_all out s
