-- ===== src/Shim/Ops.antt =====
-- instance.rs `start_sandbox`, `start_container`, `kill`, `delete` and the exit watcher. Each is one
-- step of the model.
use containerd_cloudhypervis.Common.{
  ℕ, zero, suc, ◌+◌, ◌-◌, ◌^◌, Bool, true, false, ◌&&◌, ◌||◌, Option, none, some, [], ◌∷◌, Text,
  lookup, insert, remove, update, unwrap_or, if◌then◌else◌, leb, ◌==◌, ite, Text-discrete,
}
use containerd_cloudhypervis.Shim.Instance.{
  SharedVmState, acquire_sandbox, release_sandbox, add_container, kill_container, delete_container,
  cleanup_tap, Instance, Shim, config_error, sandbox_not_found, erofs_failed, add_failed,
  acquire_failed, M, ◌>>=◌, ◌>>◌, return, attempt_with, modify, gets, request, usize,
}

abbrev pub is_empty : Text → Bool
is_empty [] = true
is_empty (c ∷ cs) = false

unfoldable pub new_vm : Option Text → Option Text → Text → SharedVmState
new_vm netns cgroups_path socket = record {
  ch_pid = 0;
  container_count = 1;
  tap_name = none;
  netns = netns;
  cgroups_path = cgroups_path;
  daemon_vm_id = [];
  daemon_socket = socket;
}

-- `config` is the daemon's socket in the configuration, if that can be read.
unfoldable pub start_sandbox : Text → Option Text → Option Text → Option Text → ℕ → M ℕ
unfolding new_vm
start_sandbox id netns cgroups_path config shim_pid = do
  socket ← attempt_with config config_error
  modify (λ s. record s { vms = insert id (new_vm netns cgroups_path socket) s.vms })
  return shim_pid

-- daemon_client.rs `AcquiredVm`.
pub record AcquiredVm : Type 0 where
  pub vm_id : Text
  pub ch_pid : ℕ
  pub from_snapshot : Bool
  pub container_pid : ℕ
  pub tap_name : Text

-- How the steps of a start come out: the image key, the attempts at the erofs file, and the answers
-- of the daemon.
pub record StartTrial : Type 0 where
  pub image_key : Text
  pub prepare_erofs : ℕ → Option Text
  pub added : Option ℕ
  pub acquired : Option AcquiredVm

-- `for attempt in 0..3`: `n` attempts are left, the next is `attempt`.
unfoldable pub retry_erofs : ℕ → ℕ → (ℕ → Option Text) → Option Text
retry_erofs zero attempt prepare = none
retry_erofs (suc n) attempt prepare =
    let rest = retry_erofs n (attempt + 1) prepare in
    elim (prepare attempt) [ none ↦ rest | some path ↦ some path ]

abbrev pub tap_option : Text → Option Text
tap_option [] = none
tap_option (c ∷ cs) = some (c ∷ cs)

unfoldable pub with_vm : AcquiredVm → SharedVmState → SharedVmState
with_vm a vm = record vm {
  ch_pid = a.ch_pid;
  tap_name = tap_option a.tap_name;
  daemon_vm_id = a.vm_id;
}

abbrev pub place : ℕ → Option Text → Shim → Shim
place pid none s = s
place pid (some cg) s = record s { cgroups = (pid, cg) ∷ s.cgroups }

-- A further container: the daemon plugs its disk in and runs it.
unfoldable pub add_to_vm : Instance → StartTrial → Text → SharedVmState → M ℕ
add_to_vm i t erofs vm = do
  modify (request (add_container vm.daemon_vm_id erofs i.id))
  attempt_with t.added add_failed

-- The first container: a VM is acquired and becomes the state of the sandbox.
unfoldable pub acquire_vm : Instance → StartTrial → Text → SharedVmState → M ℕ
unfolding with_vm
acquire_vm i t erofs vm = do
  modify (request (acquire_sandbox (unwrap_or vm.netns []) t.image_key erofs i.id))
  acquired ← attempt_with t.acquired acquire_failed
  modify (λ s. record s { vms = insert i.sandbox_id (with_vm acquired vm) s.vms })
  modify (place acquired.ch_pid vm.cgroups_path)
  return acquired.container_pid

abbrev pub count : Text → Shim → Shim
count sandbox_id s = record s {
  vms =
      update sandbox_id (λ vm. record vm { container_count = usize (vm.container_count + 1) })
        s.vms;
}

-- What a start does with the state of the sandbox that it has read.
unfoldable pub rest_of_start : Instance → StartTrial → SharedVmState → M ℕ
unfolding retry_erofs add_to_vm acquire_vm
rest_of_start i t vm = do
  erofs ← attempt_with (retry_erofs 3 0 t.prepare_erofs) erofs_failed
  pid ← (if is_empty vm.daemon_vm_id then acquire_vm i t erofs vm else add_to_vm i t erofs vm)
  modify (count i.sandbox_id)
  return pid

unfoldable pub start_container : Instance → StartTrial → M ℕ
unfolding rest_of_start
start_container i t = do
  found ← gets (λ s. lookup i.sandbox_id s.vms)
  vm ← attempt_with found sandbox_not_found
  rest_of_start i t vm

-- `exit.set(..)`: a cell that is set stays as it is.
unfoldable pub set_exit : Text → ℕ → Shim → Shim
set_exit id code s = elim (lookup id s.exits) [
  | none ↦ record s { exits = insert id code s.exits }
  | some c ↦ s
]

-- The exit watcher of a container: the daemon's answer to `WaitContainer`, where 137 stands for a
-- failed request, or 137 when the process of the VM is gone.
unfoldable pub exit_watcher : Text → Option ℕ → Shim → Shim
unfolding set_exit
exit_watcher id waited s = set_exit id (unwrap_or waited 137) s

abbrev pub clean_tap : SharedVmState → Shim → Shim
clean_tap vm s = elim vm.netns [
  | none ↦ s
  | some netns ↦ elim vm.tap_name [ none ↦ s | some tap ↦ request (cleanup_tap netns tap) s ]
]

abbrev drop_vm : Text → SharedVmState → Shim → Shim
drop_vm sandbox_id vm s = let t = clean_tap vm s in record t { vms = remove sandbox_id t.vms }

-- A signal for the sandbox itself that ends it.
unfoldable pub kill_sandbox : Instance → SharedVmState → Shim → Shim
unfolding set_exit
kill_sandbox i vm s =
    let released =
      if is_empty vm.daemon_vm_id then s else request (release_sandbox vm.daemon_vm_id) s in
    set_exit i.id 0 (drop_vm i.sandbox_id vm released)

abbrev pub is_sandbox : Instance → Bool
is_sandbox i = ite (Text-discrete i.id i.sandbox_id) true false

-- Failures of the requests are ignored, so `kill` always succeeds.
unfoldable pub kill : Instance → ℕ → Shim → Shim
unfolding kill_sandbox set_exit Text-discrete
kill i signal s = elim (lookup i.sandbox_id s.vms) [
  | none ↦ set_exit i.id 0 s
  | some vm ↦
      if is_sandbox i && (signal == 9 || signal == 15)
      then kill_sandbox i vm s
      else request (kill_container vm.daemon_vm_id i.id signal) s
]

unfoldable pub delete_last : Instance → SharedVmState → Shim → Shim
delete_last i vm s = drop_vm i.sandbox_id vm (request (release_sandbox vm.daemon_vm_id) s)

unfoldable pub delete_one : Instance → SharedVmState → Shim → Shim
delete_one i vm s = request (delete_container vm.daemon_vm_id i.id) (record s {
  vms =
      update i.sandbox_id
        (λ v. record v { container_count = usize (v.container_count + 2 ^ 64 - 1) }) s.vms;
})

-- `delete` always succeeds too. An entry that goes needs no new count.
unfoldable pub delete : Instance → Shim → Shim
unfolding delete_last delete_one set_exit
delete i s = elim (lookup i.sandbox_id s.vms) [
  | none ↦ set_exit i.id 0 s
  | some vm ↦
      set_exit i.id 0 (if leb vm.container_count 1 then delete_last i vm s else delete_one i vm s)
]
