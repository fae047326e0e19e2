-- ===== src/Agent/Manager/Ops.antt =====
-- container.rs `start`, `run`, `kill`, `signal_all`, `delete`, `adopt`, `mark_stopped` and `state`.
use containerd_cloudhypervis.Common.{
  ℕ, Bool, true, false, Option, none, some, List, [], ◌∷◌, Text, ok, err, lookup, insert, remove,
  update, unwrap_or, if◌then◌else◌,
}
use containerd_cloudhypervis.Agent.Manager.State.{
  created, running, stopped, Container, ContainerLogs, ExitStatus, Manager, io_failed, not_found,
  spawn_failed, crun_failed, no_pid, unknown, StateResponse, to_proto, M, ◌>>=◌, ◌>>◌, attempt,
  attempt_with, modify, gets, return,
}
use containerd_cloudhypervis.Agent.Manager.Create.{CreateTrial, create}

abbrev empty_logs : ContainerLogs
empty_logs = record { stdout = []; stderr = []; eof = false }

unfoldable pub started : Text → ℕ → Manager → Manager
started id pid s = record s {
  containers = update id (λ c. record c { state = running; pid = some pid }) s.containers;
  logs = insert id empty_logs s.logs;
  exit_receivers = insert id none s.exit_receivers;
}

-- `spawned` is what spawning `crun run` gives; `child.id()` of a live child is there.
unfoldable pub start : Text → Option ℕ → M ℕ
unfolding started
start id spawned = do
  entry ← gets (λ s. lookup id s.containers)
  container ← attempt_with entry not_found
  pid ← attempt_with spawned spawn_failed
  modify (started id pid)
  return pid

unfoldable pub run : Text → CreateTrial → Option ℕ → M ℕ
unfolding create start
run id t spawned = create id t >>= λ _. start id spawned

-- How `crun kill` comes out; `gone` is the message that the container is not there any more.
pub data KillOutcome : Type 0 where
  not_executed delivered gone refused : KillOutcome

abbrev pub killed : KillOutcome → M (Unit {0})
killed not_executed s = (err io_failed, s)
killed delivered s = (ok tt, s)
killed gone s = (ok tt, s)
killed refused s = (err crun_failed, s)

abbrev pub is_stopped : Option Container → Bool
is_stopped none = false
is_stopped (some c) = elim c.state [ created ↦ false | running ↦ false | stopped ↦ true ]

unfoldable pub kill : Text → KillOutcome → M (Unit {0})
kill id out s =
    if is_stopped (lookup id s.containers)
    then (ok tt, s)
    else killed out (record s { crun_kills = id ∷ s.crun_kills })

-- The ids that `signal_all` signals.
unfoldable pub live_ids : List (Text × Container) → List Text
live_ids [] = []
live_ids ((id, c) ∷ m) = if is_stopped (some c) then live_ids m else id ∷ live_ids m

unfoldable pub kill_each : List Text → (Text → KillOutcome) → Manager → Manager
unfolding kill
kill_each [] out s = s
kill_each (id ∷ ids) out s = kill_each ids out (kill id (out id) s).1

unfoldable pub signal_all : (Text → KillOutcome) → Manager → Manager
unfolding live_ids kill_each
signal_all out s = kill_each (live_ids s.containers) out s

abbrev deleted : Option Container → ℕ × ℕ
deleted none = (0, 0)
deleted (some c) = (unwrap_or c.pid 0, unwrap_or c.exit_code 0)

-- `executed` says that `crun delete` could be run; that it fails is only logged. The result is the
-- pid and the exit code.
unfoldable pub delete : Text → Bool → M (ℕ × ℕ)
delete id executed = do
  attempt executed io_failed
  entry ← gets (λ s. lookup id s.containers)
  modify (λ s. record s { containers = remove id s.containers })
  return (deleted entry)

-- `if let Some(x) = map.remove(old) { map.insert(new, x) }`
unfoldable pub rename {ℓ} : {V : Type ℓ} → Text → Text → List (Text × V) → List (Text × V)
rename old new m = elim (lookup old m) [ none ↦ m | some v ↦ insert new v (remove old m) ]

abbrev pub renamed : Text → Text → Container → Manager → Manager
renamed old new container s = record s {
  exit_receivers = rename old new s.exit_receivers;
  logs = rename old new s.logs;
  containers = insert new container s.containers;
}

unfoldable pub adopt : Text → Text → M ℕ
adopt old new = do
  entry ← gets (λ s. lookup old s.containers)
  container ← attempt_with entry not_found
  modify (λ s. record s { containers = remove old s.containers })
  pid ← attempt_with container.pid no_pid
  modify (renamed old new container)
  return pid

unfoldable pub mark_stopped : Text → ℕ → Manager → Manager
mark_stopped id code s = record s {
  containers = update id (λ c. record c { state = stopped; exit_code = some code }) s.containers;
}

unfoldable pub state : Text → Manager → StateResponse
state id s = elim (lookup id s.containers) [
  | none ↦ record { pid = 0; status = unknown; exit_status = 0 }
  | some c ↦ record {
    pid = unwrap_or c.pid 0;
    status = to_proto c.state;
    exit_status = unwrap_or c.exit_code 0;
  }
]

-- The background task of a started container: its exit reaches the watch channel and the log. The
-- task of the source owns the channel and the log of the start; here they are those that are found
-- under the container's id when it exits.
unfoldable pub exit_event : Text → ExitStatus → Manager → Manager
exit_event id status s = record s {
  exit_receivers = update id (λ _. some status) s.exit_receivers;
  logs = update id (λ l. record l { eof = true }) s.logs;
}
