-- ===== src/Examples/Shims.antt =====
-- Runs of the models of instance.rs.
use containerd_cloudhypervis.Common.{
  ℕ, ◌<◌, ◌≡◌, refl, false, Option, none, some, List, [], ◌∷◌, Text, codes, arith, length, lookup,
  insert, update,
}
use containerd_cloudhypervis.Common.{join_with, true}
use containerd_cloudhypervis.Shim.Cgroups.{build_systemd_cgroup_path}
use containerd_cloudhypervis.Shim.Slices.{lineage, build_systemd_cgroup_path-lineage}
use containerd_cloudhypervis.Shim.Images.{ErofsTrial, Cache, prepare_erofs}
use containerd_cloudhypervis.Shim.Instance.{SharedVmState, Shim}
use containerd_cloudhypervis.Shim.Ops.{
  StartTrial, AcquiredVm, rest_of_start, new_vm, start_sandbox, start_container, delete,
}
use containerd_cloudhypervis.Shim.Count.{releases, Holds, member, delete_all}
use containerd_cloudhypervis.Shim.Pod.{start_all, pod_life}
use containerd_cloudhypervis.Shim.Faults.{start_and_delete, failed_starts-release}

abbrev acquired : AcquiredVm
acquired = record {
  vm_id = codes "pool-701-4";
  ch_pid = 1000;
  from_snapshot = false;
  container_pid = 40;
  tap_name = codes "tap_pool-701";
}

abbrev trial : Option ℕ → StartTrial
trial added = record {
  image_key = codes "k";
  prepare_erofs = λ n. some (codes "/e/k.erofs");
  added = added;
  acquired = some acquired;
}

abbrev none_yet : Shim
none_yet = record { vms = []; exits = []; requests = []; cgroups = [] }

-- A pod with its sandbox and one container.
abbrev vm : SharedVmState
vm = record {
  ch_pid = 1000;
  container_count = 2;
  tap_name = some (codes "tap_pool-701");
  netns = some (codes "/n");
  cgroups_path = none;
  daemon_vm_id = codes "pool-701-4";
  daemon_socket = codes "/d";
}

abbrev pod : Shim
pod = record { vms = (codes "pod", vm) ∷ []; exits = []; requests = []; cgroups = [] }

pod-Holds : Holds (codes "pod") 2 (codes "pool-701-4") pod
unfolding lookup
pod-Holds = record { vm = vm; found = refl; counted = refl; named = refl; distinct = (refl, tt) }

abbrev sandbox : Shim
sandbox = (start_sandbox (codes "pod") (some (codes "/n")) none (some (codes "/d")) 9 none_yet).1

abbrev up : Shim
up = (start_container (member (codes "pod") (codes "web")) (trial none) sandbox).1

abbrev more : List (Text × StartTrial)
more = (codes "job", trial (some 41)) ∷ []

abbrev all : List Text
all = codes "web" ∷ codes "job" ∷ codes "pod" ∷ []

pod_life_example :
    let after = delete_all (codes "pod") all (start_all (codes "pod") more up) in
    (length all < 3 → releases after.requests ≡ releases [])
    × (length all ≡ 3
        → (lookup (codes "pod") after.vms ≡ none)
          × (releases after.requests ≡ codes "pool-701-4" ∷ releases []))
unfolding start_sandbox start_container lookup insert update
pod_life_example =
    pod_life (codes "pod") (codes "/d") (some (codes "/n")) none 9 (codes "web") (trial none)
      acquired more all 40 none_yet tt (λ e. ground arith) refl (omega arith) refl ((41, refl), tt)
      (omega arith)

failed_starts-release_example :
    let after =
      start_and_delete
        (member (codes "pod") (codes "c"))
        (trial none)
        (start_and_delete (member (codes "pod") (codes "b")) (trial none) pod) in
    (lookup (codes "pod") after.vms ≡ none)
    × (releases after.requests ≡ codes "pool-701-4" ∷ releases [])
unfolding start_container lookup update delete
failed_starts-release_example =
    failed_starts-release (codes "pod") (codes "b") (codes "c") (trial none) (trial none)
      (codes "pool-701-4") pod pod-Holds refl refl

abbrev other : AcquiredVm
other = record acquired { vm_id = codes "pool-701-5"; ch_pid = 1001; container_pid = 41 }

abbrev second : StartTrial
second = record (trial none) { acquired = some other }

abbrev bare : SharedVmState
bare = new_vm none none (codes "/d")

abbrev raced : Shim
raced =
    (rest_of_start (member (codes "pod") (codes "job")) second bare
      (rest_of_start (member (codes "pod") (codes "web")) (trial none) bare pod).1).1

build_systemd_cgroup_path-lineage_example :
    build_systemd_cgroup_path (codes "kubepods-burstable-pod7.slice")
    ≡ codes "kubepods.slice/kubepods-burstable.slice/kubepods-burstable-pod7.slice"
unfolding lineage join_with
build_systemd_cgroup_path-lineage_example =
    build_systemd_cgroup_path-lineage (codes "kubepods") (codes "burstable" ∷ codes "pod7" ∷ [])
      (((λ e. cc), omega arith), (((λ e. cc), omega arith), (((λ e. cc), omega arith), tt)))

abbrev first_run : ErofsTrial
first_run = record {
  dir_made = true;
  lock_made = true;
  locked = true;
  appeared = [];
  mkfs = some true;
  renamed = true;
}

abbrev no_images : Cache
no_images = record { images = []; made = [] }

abbrev image : Text
image = codes "/run/cloudhv/erofs-cache/k.erofs"
