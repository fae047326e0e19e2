-- ===== src/Agent/Oci.antt =====
-- container.rs `adapt_oci_spec_for_vm` between the reading and the writing of config.json.
use containerd_cloudhypervis.Common.{
  Bool, none, some, List, [], ◌∷◌, ◌++◌, Text, codes, ite, Text-discrete, if◌then◌else◌, join,
  split, map, drop,
}
use containerd_cloudhypervis.Json.{JsonOps, remove_each, on_object, on_member, fields}
use containerd_cloudhypervis.Agent.Paths.{InlineFileInfo, VolumeInfo}
use containerd_cloudhypervis.Agent.Disks.{discover_block_device}

-- The last component of a path that has a name: empty ones and `.` do not count.
unfoldable pub last_named : List Text → Text
unfolding Text-discrete
last_named [] = []
last_named (c ∷ cs) =
    let rest = last_named cs in
    let here = ite (Text-discrete c (codes ".")) [] c in ite (Text-discrete rest []) here rest

-- `Path::file_name`, or the empty text where there is none.
unfoldable pub file_name : Text → Text
unfolding last_named split Text-discrete
file_name path =
    let name = last_named (split b'/' path) in ite (Text-discrete name (codes "..")) [] name

-- The source of a volume with one inline file is that file, where the destination has its name.
unfoldable pub file_source : VolumeInfo → List InlineFileInfo → Text
unfolding file_name Text-discrete
file_source vol [] = vol.source
file_source vol (file ∷ []) =
    let dest_basename = file_name vol.destination in
    ite (Text-discrete dest_basename []) vol.source (
      ite (Text-discrete dest_basename (file_name file.path)) (join vol.source file.path)
        vol.source)
file_source vol (file ∷ other ∷ files) = vol.source

unfoldable pub ro_if : Bool → List Text
ro_if readonly = if readonly then codes "ro" ∷ [] else []

-- What /sys/block holds at the next scan; past the end of the list, nothing.
abbrev next_scan : List (List Text) → List Text
next_scan [] = []
next_scan (names ∷ scans) = names

abbrev pub host_keys : List Text
host_keys =
    codes "cgroupsPath"
    ∷ codes "maskedPaths"
    ∷ codes "readonlyPaths"
    ∷ codes "resources"
    ∷ codes "seccomp"
    ∷ []

abbrev pub process_keys : List Text
process_keys = codes "apparmorProfile" ∷ codes "selinuxLabel" ∷ codes "oomScoreAdj" ∷ []

-- `J` is `serde_json`.
module _ (J : JsonOps) where
  unfoldable pub texts : List Text → J.Value
  texts options = J.array (map J.text options)

  unfoldable pub mount : Text → Text → Text → List Text → J.Value
  mount destination kind source options = J.object (
      fields J (
        (codes "destination", J.text destination)
        ∷ (codes "type", J.text kind)
        ∷ (codes "source", J.text source)
        ∷ (codes "options", texts options)
        ∷ []))

  abbrev proc_mount : J.Value
  proc_mount = J.object (
      fields J (
        (codes "destination", J.text (codes "/proc"))
        ∷ (codes "type", J.text (codes "proc"))
        ∷ (codes "source", J.text (codes "proc"))
        ∷ []))

  unfoldable pub system_mounts : List J.Value
  unfolding mount fields
  system_mounts =
      proc_mount
      ∷ mount (codes "/dev") (codes "tmpfs") (codes "tmpfs")
          (codes "nosuid" ∷ codes "strictatime" ∷ codes "mode=755" ∷ codes "size=65536k" ∷ [])
      ∷ mount (codes "/dev/pts") (codes "devpts") (codes "devpts") (
          codes "nosuid"
          ∷ codes "noexec"
          ∷ codes "newinstance"
          ∷ codes "ptmxmode=0666"
          ∷ codes "mode=0620"
          ∷ [])
      ∷ mount (codes "/sys") (codes "sysfs") (codes "sysfs")
          (codes "nosuid" ∷ codes "noexec" ∷ codes "nodev" ∷ codes "ro" ∷ [])
      ∷ []

  unfoldable pub bind_mount : VolumeInfo → J.Value
  unfolding file_source mount ro_if
  bind_mount vol =
      mount vol.destination (codes "bind") (file_source vol vol.inline_files)
        (codes "rbind" ∷ ro_if vol.readonly)

  unfoldable pub block_mount : VolumeInfo → Text → J.Value
  unfolding mount ro_if
  block_mount vol dev_path = mount vol.destination vol.fs_type dev_path (ro_if vol.readonly)

  -- One mount for each volume, and the disks that are known then. A block volume whose device is not
  -- found is left out.
  unfoldable pub volume_mounts :
      List VolumeInfo → List (List Text) → List Text → List J.Value × List Text
  unfolding discover_block_device bind_mount block_mount
  volume_mounts [] scans known = ([], known)
  volume_mounts (vol ∷ vols) scans known =
      let (found, known') = discover_block_device (next_scan scans) known in
      let (mounts, all) = volume_mounts vols (drop 1 scans) known' in
      let (mounts', all') = volume_mounts vols scans known in
      if vol.is_block
      then elim found [ none ↦ (mounts, all) | some path ↦ (block_mount vol path ∷ mounts, all) ]
      else (bind_mount vol ∷ mounts', all')

  unfoldable pub vm_namespaces : J.Value
  unfolding fields
  vm_namespaces =
      let kind : Text → J.Value =
        (λ name. J.object (fields J ((codes "type", J.text name) ∷ []))) in
      J.array (kind (codes "mount") ∷ kind (codes "pid") ∷ [])

  unfoldable pub adapt_linux : J.Fields → J.Fields
  unfolding remove_each
  adapt_linux linux = remove_each J host_keys (J.insert (codes "namespaces") vm_namespaces linux)

  unfoldable pub adapt_fields : List J.Value → J.Fields → J.Fields
  adapt_fields mounts spec =
      let linux = on_member J (codes "linux") adapt_linux spec in
      let mounted =
        J.insert (codes "mounts") (J.array mounts) (J.remove (codes "hostname") linux) in
      on_member J (codes "process") (remove_each J process_keys) mounted

  -- The new spec, and the disks that are known then.
  unfoldable pub adapt_oci_spec_for_vm :
      List VolumeInfo → List (List Text) → List Text → J.Value → J.Value × List Text
  adapt_oci_spec_for_vm volumes scans known spec =
      let (mounts, known') = volume_mounts volumes scans known in
      (on_object J (adapt_fields (system_mounts ++ mounts)) spec, known')
