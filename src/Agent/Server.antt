-- ===== src/Agent/Server.antt =====
-- server.rs: the handlers `wait_container` and `get_container_logs` on the container manager.
-- `Agent.Rpc` has the handlers of the other container RPCs.
use containerd_cloudhypervis.Common.{
  ℕ, Bool, true, Option, none, some, [], Text, lookup, length, drop, if◌then◌else◌, ltb,
}
use Prim.Native.Nat.{max}
use containerd_cloudhypervis.Agent.Manager.{Manager, ContainerLogs, ExitStatus, mark_stopped}

-- What ends the `select!`: the channel changed and shows a value, its sender is gone, or 600 seconds
-- have passed.
pub data WaitOutcome : Type 0 where
  changed : Option ExitStatus → WaitOutcome
  sender_gone timed_out : WaitOutcome

abbrev lost_status : ℕ → ExitStatus
lost_status now = record { code = 137; exited_at = now }

unfoldable pub waited : WaitOutcome → ℕ → ExitStatus
waited (changed (some status)) now = status
waited (changed none) now = lost_status now
waited sender_gone now = lost_status now
waited timed_out now = lost_status now

unfoldable pub report : Text → ExitStatus → Manager → Option ExitStatus × Manager
report id status s = (some status, mark_stopped id status.code s)

-- `none` is the error for an unknown container. `meanwhile` is what happens to the manager while the
-- handler waits without its lock, and `now` the time at the end of the wait.
unfoldable pub wait_container :
    Text → (Manager → Manager) → WaitOutcome → ℕ → Manager → Option ExitStatus × Manager
unfolding waited report
wait_container id meanwhile out now s = elim (lookup id s.exit_receivers) [
  | none ↦ (none, s)
  | some (some status) ↦ report id status s
  | some none ↦ report id (waited out now) (meanwhile s)
]

pub record LogsResponse : Type 0 where
  pub stdout : Text
  pub stderr : Text
  pub offset : ℕ
  pub eof : Bool

-- The bytes from an offset on, if there are any.
abbrev pub from_offset : ℕ → Text → Text
from_offset offset bytes = if ltb offset (length bytes) then drop offset bytes else []

unfoldable pub read_logs : ℕ → ContainerLogs → LogsResponse
read_logs offset l = record {
  stdout = from_offset offset l.stdout;
  stderr = from_offset offset l.stderr;
  offset = max (length l.stdout) (length l.stderr);
  eof = l.eof;
}

unfoldable pub get_container_logs : Text → ℕ → Manager → LogsResponse
unfolding read_logs
get_container_logs id offset s = elim (lookup id s.logs) [
  | none ↦ record { stdout = []; stderr = []; offset = 0; eof = true }
  | some l ↦ read_logs offset l
]
