-- ===== src/Examples/Pools.antt =====
-- Runs of the models of pool.rs.
use containerd_cloudhypervis.Common.{
  ℕ, ◌+◌, ◌≤◌, ◌≡◌, ◌≢◌, refl, true, false, none, some, List, [], ◌∷◌, Text, codes, err, arith,
  length, insert, show_dec, is_some, if◌then◌else◌, ite, Text-discrete, lookup,
}
use containerd_cloudhypervis.Pool.State.{Pool, PoolVm, Config, ch_api, pool_id}
use containerd_cloudhypervis.Pool.Restore.{Trial, BaseTrial, restore_one}
use containerd_cloudhypervis.Pool.Ops.{
  new, initialize, acquire, release, get_active, Call, acquires, releases, replenishes, takes_cid,
  registers, run,
}
use containerd_cloudhypervis.Pool.Fresh.{Frame}
use containerd_cloudhypervis.Pool.Invariant.{Inv}
use containerd_cloudhypervis.Pool.Preserve.{acquire-Inv}
use containerd_cloudhypervis.Pool.Registered.{IsForeign, Room}
use containerd_cloudhypervis.Pool.History.{run-initialize-Inv}
use containerd_cloudhypervis.Pool.Service.{Serving}
use containerd_cloudhypervis.Pool.Refines.{view, events, run-Serving}
use containerd_cloudhypervis.Pool.Races.{Naming, Filling}
use containerd_cloudhypervis.Pool.Behaviour.{acquire-get_active, acquire_fails, release-forgets}

abbrev pub config : Config
config = record { pool_size = 1; state_dir = codes "/run/cloudhv"; daemon_pid = 701 }

abbrev pub good : ℕ → Trial
good pid = record {
  dir_made = true;
  linked = true;
  spawned = some pid;
  pid_written = true;
  api_ready = true;
  restored = true;
  resumed = true;
  agent_up = true;
}

-- Cloud Hypervisor starts, and its restore call fails.
abbrev pub bad : ℕ → Trial
bad pid = record (good pid) { restored = false }

abbrev base : BaseTrial
base = record {
  base_dir_made = true;
  dir_made = true;
  spawned = some 900;
  pid_written = true;
  api_ready = true;
  booted = true;
  agent_up = true;
  paused = true;
  snapshotted = true;
}

abbrev pub first_vm : PoolVm
first_vm = record {
  vm_id = codes "pool-701-4";
  api_socket = codes "/run/cloudhv/pool-701-4/api.sock";
  vsock_socket = codes "/run/cloudhv/pool-701-4/vsock.sock";
  cid = 4;
  ch_pid = 1000;
}

-- A VM that was restored from the snapshot of an image.
abbrev warm : PoolVm
warm = record {
  vm_id = codes "warm-nginx-0";
  api_socket = codes "/w/api.sock";
  vsock_socket = codes "/w/vsock.sock";
  cid = 9;
  ch_pid = 1009;
}

warm-IsForeign : IsForeign 701 warm
unfolding pool_id
warm-IsForeign c e = ground (arith, e)

abbrev calls : List Call
calls =
    acquires (good 1001)
    ∷ takes_cid
    ∷ replenishes (good 1002)
    ∷ acquires (good 1003)
    ∷ registers warm
    ∷ releases (codes "pool-701-4") (some 1000)
    ∷ []

abbrev filled : Pool
filled = (initialize false base (λ i. good (1000 + i)) (new config)).1

run-initialize-Inv_example :
    Inv (run calls filled) × (length (run calls filled).ready ≤ (run calls filled).pool_size)
run-initialize-Inv_example =
    run-initialize-Inv false base (λ i. good (1000 + i)) config calls (omega arith)
      (warm-IsForeign, tt) (tt, tt)

abbrev pub idle : Pool
idle = record {
  config = config;
  ready = first_vm ∷ [];
  active = [];
  active_count = 0;
  next_cid = 5;
  host = record { processes = 1000 ∷ []; dirs = [] };
}

pub idle-Inv : Inv idle
unfolding lookup pool_id show_dec
idle-Inv = record {
  counted = refl;
  distinct = tt;
  named = (refl, tt);
  below = (omega arith, tt);
  absent = (refl, tt);
  unused = λ c h. refl;
}

abbrev pub busy : Pool
busy = record idle { ready = []; active = (first_vm.vm_id, first_vm) ∷ []; active_count = 1 }

busy-Inv : Inv busy
unfolding acquire insert
busy-Inv = acquire-Inv (good 1001) idle (omega arith) idle-Inv

acquire-get_active_example :
    get_active (codes "pool-701-4") busy
    ≡ ite
        (Text-discrete first_vm.vm_id (codes "pool-701-4"))
        (some first_vm)
        (get_active (codes "pool-701-4") idle)
unfolding acquire insert
acquire-get_active_example =
    acquire-get_active (good 1001) idle busy first_vm (codes "pool-701-4") (omega arith) refl

acquire_fails_example :
    (busy.ready ≡ [])
    × ((restore_one (bad 1001) busy).0 ≡ err ch_api)
    × Frame busy (busy.next_cid + 1) (acquire (bad 1001) busy).1
unfolding acquire restore_one
acquire_fails_example = acquire_fails (bad 1001) busy (omega arith) refl

abbrev released : Pool
released = release (codes "pool-701-4") (some 1000) busy

release-forgets_example :
    (get_active (codes "pool-701-4") released ≡ none)
    × ((j : Text) → codes "pool-701-4" ≢ j → get_active j released ≡ get_active j busy)
    × (released.ready ≡ busy.ready)
    × (released.active_count + (if is_some (get_active (codes "pool-701-4") busy) then 1 else 0)
        ≡ busy.active_count)
release-forgets_example =
    release-forgets (codes "pool-701-4") (some 1000) busy busy-Inv (omega arith)

abbrev naming : Naming
naming = record { next_cid = 5; named = []; restored = [] }

abbrev filling : Filling
filling = record { pool = busy; checked = 0 }

abbrev empty_pool : Pool
empty_pool = record {
  config = config;
  ready = [];
  active = [];
  active_count = 0;
  next_cid = 3;
  host = record { processes = []; dirs = [] };
}

empty_pool-Inv : Inv empty_pool
unfolding lookup
empty_pool-Inv = record {
  counted = refl;
  distinct = tt;
  named = tt;
  below = tt;
  absent = tt;
  unused = λ c h. refl;
}

abbrev day : List Call
day =
    acquires (good 71)
    ∷ registers warm
    ∷ replenishes (good 72)
    ∷ releases (codes "pool-701-3") (some 71)
    ∷ []

day-Room : Room day empty_pool
unfolding lookup
day-Room = record { foreign = (warm-IsForeign, tt); apart = (tt, tt); absent = (refl, tt) }

run-Serving_example : Serving (view empty_pool) (events day empty_pool) (view (run day empty_pool))
run-Serving_example = run-Serving day empty_pool (omega arith) day-Room empty_pool-Inv
