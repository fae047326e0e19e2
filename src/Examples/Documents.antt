-- ===== src/Examples/Documents.antt =====
-- Runs of the models that change JSON documents.
use containerd_cloudhypervis.Common.{
  ◌≡◌, ◌≢◌, refl, true, false, ok, none, some, [], ◌∷◌, ◌++◌, Text, codes, All, join,
}
use containerd_cloudhypervis.Examples.JsonValues.{
  Json, Fields, null, number, text, object, end, field, get, values, values-JsonLaws,
}
use containerd_cloudhypervis.Agent.Paths.{VolumeInfo}
use containerd_cloudhypervis.Agent.Oci.{
  file_name, file_source, volume_mounts, system_mounts, adapt_oci_spec_for_vm,
}
use containerd_cloudhypervis.Agent.Adapted.{
  IsAdapted, IsStripped, spec_keys, adapt_oci_spec_for_vm-IsAdapted,
}
use containerd_cloudhypervis.Pool.Snapshot.{
  Files, linked, refused, SnapshotTrial, prepare_snapshot, write_config_in, link_file, attempt,
  attempt_with, put_file,
}
use containerd_cloudhypervis.Pool.Prepared.{Prepared, prepare_snapshot-Prepared}

file_name_test : file_name (codes "/etc/./hostname/") ≡ codes "hostname"
unfolding file_name
file_name_test = refl

parent_test : file_name (codes "/etc/..") ≡ []
unfolding file_name
parent_test = refl

abbrev hostname_file : VolumeInfo
hostname_file = record {
  destination = codes "/etc/hostname";
  source = codes "/run/c/volumes/1";
  readonly = true;
  is_block = false;
  fs_type = [];
  inline_files = record { path = codes "hostname"; content = codes "pod"; mode = 420 } ∷ [];
}

file_source_test :
    file_source hostname_file hostname_file.inline_files ≡ codes "/run/c/volumes/1/hostname"
unfolding file_source file_name join
file_source_test = refl

abbrev linux : Fields
linux =
    field (codes "namespaces") null
      (field (codes "cgroupsPath") (text (codes "/kubepods")) (field (codes "devices") null end))

abbrev process : Fields
process = field (codes "oomScoreAdj") (number 5) (field (codes "cwd") (text (codes "/")) end)

abbrev spec : Fields
spec = field (codes "process") (object process) (
    field (codes "hostname") (text (codes "pod"))
      (field (codes "linux") (object linux) (field (codes "root") null end)))

adapt_oci_spec_for_vm-IsAdapted_example :
    let volumes = hostname_file ∷ [] in
    (out : values.Fields) × ((adapt_oci_spec_for_vm values volumes [] [] (values.object spec)).0
      ≡ values.object out)
    × ((linux' : values.Fields) × (values.get (codes "linux") out ≡ some (values.object linux'))
        × IsAdapted values linux linux')
    × ((process' : values.Fields) × (values.get (codes "process") out
          ≡ some (values.object process'))
        × IsStripped values process process')
    × (values.get (codes "mounts") out
        ≡ some (values.array (system_mounts values ++ (volume_mounts values volumes [] []).0)))
    × (values.get (codes "hostname") out ≡ none)
    × ((k : Text) → All (λ j. k ≢ j) spec_keys → values.get k out ≡ values.get k spec)
unfolding get
adapt_oci_spec_for_vm-IsAdapted_example =
    adapt_oci_spec_for_vm-IsAdapted values values-JsonLaws (hostname_file ∷ []) [] [] spec linux
      process refl refl

abbrev vsock : Fields
vsock = field (codes "cid") (number 3) (field (codes "iommu") null end)

abbrev config : Fields
config = field (codes "vsock") (object vsock) (field (codes "memory") null end)

-- The memory lies on another file system.
abbrev crossing : SnapshotTrial Json
crossing = record {
  dir_made = true;
  memory = refused 18 true;
  state = linked;
  config = some (object config);
  console_made = true;
  written = true;
}

abbrev files : Files Json
files =
    (prepare_snapshot values (codes "/base") (codes "/vm") 9 (codes "/vm/vsock.sock") crossing []).1

prepared_run :
    prepare_snapshot values (codes "/base") (codes "/vm") 9 (codes "/vm/vsock.sock") crossing []
    ≡ (ok (codes "/vm/snapshot"), files)
unfolding prepare_snapshot attempt attempt_with put_file link_file write_config_in join
prepared_run = refl

prepare_snapshot-Prepared_example :
    Prepared values
      (codes "/base")
      (codes "/vm")
      9
      (codes "/vm/vsock.sock")
      config
      vsock
      (codes "/vm/snapshot")
      files
unfolding get
prepare_snapshot-Prepared_example =
    prepare_snapshot-Prepared values values-JsonLaws (codes "/base") (codes "/vm") 9
      (codes "/vm/vsock.sock") config vsock refl crossing [] files (codes "/vm/snapshot") refl
      prepared_run
