-- ===== src/Examples/Agents.antt =====
-- Runs of the models of container.rs and server.rs.
use containerd_cloudhypervis.Common.{
  ◌+◌, All, join, if◌then◌else◌, Text-discrete, ℕ, ◌<◌, ◌≡◌, ◌≢◌, ◌⊎◌, refl, true, false, Option,
  none, some, List, [], ◌∷◌, ◌++◌, Text, codes, ok, err, arith, lookup, insert,
}
use containerd_cloudhypervis.Common.{show_dec}
use containerd_cloudhypervis.Netlink.Socket.{Socket}
use containerd_cloudhypervis.Netlink.Replies.{show_ip}
use containerd_cloudhypervis.Netlink.Configure.{configure_interface}
use containerd_cloudhypervis.Agent.Network.{
  ConfigureNetworkRequest, configure_network, device_or_eth0, given, wait_unless,
  configure_network-parsed,
}
use containerd_cloudhypervis.Agent.Manager.{
  signal_all, Manager, Container, ContainerState, created, running, stopped, ContainerLogs,
  ExitStatus, overlay, not_found, CreateTrial, LayerTrial, KillOutcome, delivered, create, start,
  kill, adopt, new, mount_layers, mount_point,
}
use containerd_cloudhypervis.Agent.Server.{wait_container, timed_out}
use containerd_cloudhypervis.Agent.Lifecycle.{Inv}
use containerd_cloudhypervis.Agent.History.{
  starts, Call, creates, runs, kills, exits, call_all, call_all-new-Inv, adopt-moves,
}
use containerd_cloudhypervis.Agent.Layers.{layer_dirs, layer_mounts, create-mounts}
use containerd_cloudhypervis.Agent.Signals.{times, is_live, signal_all-once}
use containerd_cloudhypervis.Agent.Disks.{Unique, IsNew, discover_all, discover_all-Unique}
use containerd_cloudhypervis.Agent.Paths.{
  InlineFileInfo, IsInside, write_files, write_files-IsInside,
}
use containerd_cloudhypervis.Agent.Wait.{
  wait_container-exited, start-exit-waited, shown, exited_among,
}

abbrev layer : LayerTrial
layer = record { dir_made = true; appeared = true; mounted = true }

abbrev trial : ℕ → CreateTrial
trial layers = record {
  erofs_layers = layers;
  dirs_made = true;
  layers = λ i. layer;
  overlay_mounted = true;
  config_inline = true;
  config_on_disk = false;
  config_written = true;
  volumes_written = true;
  spec_adapted = true;
  agent_pid = 1;
}

abbrev calls : List Call
calls =
    runs (codes "web") (trial 1) (some 40)
    ∷ creates (codes "job") (trial 0)
    ∷ exits (codes "web") (record { code = 0; exited_at = 7 })
    ∷ kills (codes "web") delivered
    ∷ []

call_all-new-Inv_example : Inv (call_all calls new)
call_all-new-Inv_example = call_all-new-Inv calls

adopt-moves_example :
    let s = call_all calls new in
    let (r, t) = adopt (codes "web") (codes "pod") s in
    ((lookup (codes "web") s.containers ≡ none) × (r ≡ err not_found) × (t ≡ s))
    ⊎ ((c : Container) × (pid : ℕ) × (lookup (codes "web") s.containers ≡ some c)
        × (r ≡ ok pid)
        × (c.pid ≡ some pid)
        × (lookup (codes "pod") t.containers ≡ some c)
        × (codes "web" ≢ codes "pod" → lookup (codes "web") t.containers ≡ none)
        × ((x : Option ExitStatus)
            → lookup (codes "web") s.exit_receivers ≡ some x
            → lookup (codes "pod") t.exit_receivers ≡ some x)
        × ((l : ContainerLogs)
            → lookup (codes "web") s.logs ≡ some l
            → lookup (codes "pod") t.logs ≡ some l))
adopt-moves_example = adopt-moves calls (codes "web") (codes "pod")

abbrev after_create : Manager
after_create = (create (codes "web") (trial 2) new).1

create-mounts_example :
    (after_create.mounts
      ≡ overlay
          (layer_dirs 2 0 (mount_point (codes "web")))
          (mount_point (codes "web") ++ codes "/rootfs")
        ∷ layer_mounts 2 0 (mount_point (codes "web")) new.mounts)
    × (lookup (codes "web") after_create.containers
        ≡ some (record { pid = some 1; exit_code = none; state = created }))
    × (0 < 2)
    × (1 ≡ (trial 2).agent_pid)
unfolding create mount_layers
create-mounts_example = create-mounts (codes "web") (trial 2) new 1 refl

abbrev web : ContainerState → Container
web state = record { pid = some 40; exit_code = none; state = state }

-- A container that runs, and its channel's value.
abbrev with_web : Option ExitStatus → Manager
with_web exit = record {
  containers = (codes "web", web running) ∷ [];
  exit_receivers = (codes "web", exit) ∷ [];
  logs = (codes "web", record { stdout = []; stderr = []; eof = false }) ∷ [];
  mounts = [];
  crun_kills = [];
}

abbrev status : ExitStatus
status = record { code = 3; exited_at = 8 }

wait_container-exited_example :
    let (r, t) = wait_container (codes "web") (λ s. s) timed_out 9 (with_web (some status)) in
    (r ≡ some status)
    × ((wait_container (codes "web") (λ s. s) timed_out 9 t).0 ≡ some status)
    × (lookup (codes "web") t.containers
        ≡ some (record (web running) { state = stopped; exit_code = some 3 }))
    × ((k : KillOutcome) → kill (codes "web") k t ≡ (ok tt, t))
unfolding lookup
wait_container-exited_example =
    wait_container-exited (codes "web") status (λ s. s) timed_out 9 (with_web (some status))
      (web running) refl refl

-- Before the exit of "web" another container is made, and "web" is killed; the other one is started
-- after it.
abbrev first_calls : List Call
first_calls = creates (codes "job") (trial 2) ∷ kills (codes "web") delivered ∷ []

abbrev later_calls : List Call
later_calls = starts (codes "job") (some 42) ∷ []

start-exit-waited_example :
    let (r, t) = start (codes "web") (some 41) after_create in
    let meanwhile = exited_among (codes "web") status first_calls later_calls in
    let (reported, u) =
      wait_container (codes "web") meanwhile (shown (codes "web") (meanwhile t)) 9 t in
    (r ≡ ok 41)
    × (reported ≡ some status)
    × (lookup (codes "web") u.containers
        ≡ some (record { pid = some 41; exit_code = some 3; state = stopped }))
    × ((k : KillOutcome) → kill (codes "web") k u ≡ (ok tt, u))
unfolding lookup create mount_layers insert new
start-exit-waited_example =
    start-exit-waited (codes "web") 41 status first_calls later_calls 9 after_create _ refl
      (ground arith, (tt, tt)) (ground arith, tt)

abbrev talking : ContainerLogs
talking = record { stdout = codes "hello"; stderr = []; eof = false }

abbrev some_stopped : Manager
some_stopped = record (with_web none) {
  containers = (codes "web", web running) ∷ (codes "job", web stopped) ∷ [];
}

signal_all-once_example :
    let t = signal_all (λ id. delivered) some_stopped in
    (t.containers ≡ some_stopped.containers)
    × (times (codes "web") t.crun_kills
        ≡ times (codes "web") []
          + (if is_live (lookup (codes "web") some_stopped.containers) then 1 else 0))
unfolding lookup
signal_all-once_example =
    signal_all-once (λ id. delivered) some_stopped (codes "web") (refl, (refl, tt))

abbrev file : Text → InlineFileInfo
file path = record { path = path; content = codes "x"; mode = 420 }

abbrev files : List InlineFileInfo
files = file (codes "hostname") ∷ file (codes "a/../../b") ∷ file (codes "/etc/passwd") ∷ []

write_files-IsInside_example :
    All (λ (w : Text × Text). IsInside (codes "/v") w.0) (write_files (codes "/v") files)
write_files-IsInside_example = write_files-IsInside (codes "/v") files

write_files_test : write_files (codes "/v") files ≡ (codes "/v/hostname", codes "x") ∷ []
unfolding write_files join Text-discrete
write_files_test = refl

abbrev scans : List (List Text)
scans =
    (codes "loop0" ∷ codes "vda" ∷ codes "vdb" ∷ [])
    ∷ (codes "vda" ∷ codes "vdb" ∷ codes "vdc" ∷ [])
    ∷ []

discover_all-Unique_example :
    Unique (discover_all scans (codes "vda" ∷ []))
    × All (IsNew (codes "vda" ∷ [])) (discover_all scans (codes "vda" ∷ []))
discover_all-Unique_example = discover_all-Unique scans (codes "vda" ∷ [])

discover_all_test : discover_all scans (codes "vda" ∷ []) ≡ codes "/dev/vdb" ∷ codes "/dev/vdc" ∷ []
unfolding discover_all Text-discrete
discover_all_test = refl

abbrev asked : ConfigureNetworkRequest
asked = record {
  device = [];
  ip_address = codes "10.0.0.7";
  prefix_len = 24;
  gateway = codes "10.0.0.1";
  mac = codes "02:42:ac:11:00:0a";
}

abbrev opened : Socket
opened = record { seq = 1; sent = []; refusals = []; inbox = [] }

configure_network-parsed_example :
    configure_network (λ e. []) [] (ok opened) asked
    ≡ ok (
        configure_interface
          (λ e. [])
          (codes "eth0")
          (10, 0, 0, 7)
          24
          (some (10, 0, 0, 1))
          (some (codes "02:42:ac:11:00:0a"))
          opened)
unfolding device_or_eth0 given wait_unless show_ip show_dec
configure_network-parsed_example =
    configure_network-parsed (λ e. []) [] opened [] (10, 0, 0, 7) 24 (some (10, 0, 0, 1))
      (codes "02:42:ac:11:00:0a") (omega arith) (omega arith) (omega arith) refl
