-- ===== src/Shim/Cgroups.antt =====
-- instance.rs `place_in_pod_cgroup` and `build_systemd_cgroup_path`: the cgroup that the process of
-- a pod's VM is moved to.
use containerd_cloudhypervis.Common.{
  ℕ, ◌-◌, ◌≡◌, refl, Bool, true, false, List, [], ◌∷◌, ◌++◌, Text, codes, length, drop, take,
  Result, ok, err, if◌then◌else◌, leb, show_dec, split, join_with, Text-discrete, ite,
}

-- `strip_suffix(end).unwrap_or(s)`.
unfoldable pub strip_end : Text → Text → Text
unfolding Text-discrete
strip_end end s =
    let n = length s - length end in
    if leb (length end) (length s) then ite (Text-discrete (drop n s) end) (take n s) s else s

unfoldable pub slices : Text → List Text → List Text
slices prefix [] = []
slices [] (seg ∷ segs) = (seg ++ codes ".slice") ∷ slices seg segs
slices (p ∷ prefix) (seg ∷ segs) =
    let grown = p ∷ prefix ++ b'-' ∷ seg in (grown ++ codes ".slice") ∷ slices grown segs

unfoldable pub build_systemd_cgroup_path : Text → Text
build_systemd_cgroup_path slice =
    join_with b'/' (slices [] (split b'-' (strip_end (codes ".slice") slice)))

-- The files `cgroup.procs` that exist, and what has been written to them, newest first.
pub record CgroupFs : Type 0 where
  pub procs : List Text
  pub writes : List (Text × Text)

pub data CgroupError : Type 0 where
  write_failed create_failed no_cgroup : CgroupError

exists : Text → List Text → Bool
unfolding Text-discrete
exists path [] = false
exists path (p ∷ ps) = ite (Text-discrete p path) true (exists path ps)

abbrev cgroup_base : Text
cgroup_base = codes "/sys/fs/cgroup"

-- `{cgroup_base}/{path}/cgroup.procs`.
unfoldable pub procs_of : Text → Text
procs_of path = cgroup_base ++ (b'/' ∷ (path ++ codes "/cgroup.procs"))

-- The path of the scope in the hierarchy of the slice.
unfoldable pub scope_path : Text → Text → Text → Text
scope_path slice prefix id =
    build_systemd_cgroup_path slice ++ (b'/' ∷ (prefix ++ (b'-' ∷ (id ++ codes ".scope"))))

put_pid : ℕ → Text → Bool → CgroupFs → Result CgroupError (Unit {0}) × CgroupFs
unfolding show_dec
put_pid pid file written s =
    if written
    then (ok tt, record s { writes = (file, show_dec pid) ∷ s.writes })
    else (err write_failed, s)

-- A new scope comes with its `cgroup.procs`.
in_scope : ℕ → Text → Bool → Bool → CgroupFs → Result CgroupError (Unit {0}) × CgroupFs
unfolding put_pid exists
in_scope pid file made written s =
    if exists file s.procs
    then put_pid pid file written s
    else if made
    then put_pid pid file written (record s { procs = file ∷ s.procs })
    else (err create_failed, s)

by_parts : List Text → ℕ → Bool → Bool → CgroupFs → Result CgroupError (Unit {0}) × CgroupFs
unfolding in_scope procs_of scope_path
by_parts (slice ∷ prefix ∷ id ∷ []) pid made written s =
    in_scope pid (procs_of (scope_path slice prefix id)) made written s
by_parts parts pid made written s = (err no_cgroup, s)

-- `made` and `written` are the outcomes of creating the scope and of the write.
unfoldable pub place_in_pod_cgroup :
    ℕ → Text → Bool → Bool → CgroupFs → Result CgroupError (Unit {0}) × CgroupFs
unfolding by_parts exists put_pid procs_of
place_in_pod_cgroup pid cgroups_path made written s =
    if exists (procs_of cgroups_path) s.procs
    then put_pid pid (procs_of cgroups_path) written s
    else by_parts (split b':' cgroups_path) pid made written s

slice_test :
    build_systemd_cgroup_path (codes "kubepods-burstable-pod7.slice")
    ≡ codes "kubepods.slice/kubepods-burstable.slice/kubepods-burstable-pod7.slice"
unfolding build_systemd_cgroup_path split join_with strip_end slices
slice_test = refl

place_test :
    place_in_pod_cgroup 42
      (codes "a-b.slice:cri-containerd:c1")
      true
      true
      (record { procs = []; writes = [] })
    ≡ (
      ok tt,
      record {
        procs = codes "/sys/fs/cgroup/a.slice/a-b.slice/cri-containerd-c1.scope/cgroup.procs" ∷ [];
        writes =
            (
              codes "/sys/fs/cgroup/a.slice/a-b.slice/cri-containerd-c1.scope/cgroup.procs",
              codes "42",
            )
            ∷ [];
      },
    )
unfolding place_in_pod_cgroup build_systemd_cgroup_path split join_with strip_end slices
place_test = refl
