-- ===== src/Agent/Adapted.antt =====
-- container.rs `adapt_oci_spec_for_vm`: what the new spec has, key by key.
use containerd_cloudhypervis.Common.{
  ◌≡◌, ◌≢◌, refl, ◌∙◌, none, some, List, [], ◌∷◌, ◌++◌, Text, codes, Text-discrete, arith, All, ite,
}
use containerd_cloudhypervis.Json.{
  JsonOps, JsonLaws, remove_each, on_member, on_object-object, get-on_member, get-remove_each,
  remove_each-removed,
}
use containerd_cloudhypervis.Agent.Paths.{VolumeInfo}
use containerd_cloudhypervis.Agent.Oci.{
  volume_mounts, vm_namespaces, host_keys, process_keys, adapt_linux, adapt_fields, system_mounts,
  adapt_oci_spec_for_vm,
}

-- The keys of a spec that the adaptation looks at.
abbrev pub spec_keys : List Text
spec_keys = codes "linux" ∷ codes "hostname" ∷ codes "mounts" ∷ codes "process" ∷ []

module _ (J : JsonOps) where
  -- The `linux` object: the namespaces are new, the keys that speak of the host are gone, the others
  -- are as they were.
  abbrev pub IsAdapted : J.Fields → J.Fields → Type 0
  IsAdapted linux linux' =
      (J.get (codes "namespaces") linux' ≡ some (vm_namespaces J))
      × All (λ k. J.get k linux' ≡ none) host_keys
      × ((k : Text)
          → All (λ j. k ≢ j) (codes "namespaces" ∷ host_keys)
          → J.get k linux' ≡ J.get k linux)

  -- The `process` object without the keys of the security modules and the OOM score.
  abbrev pub IsStripped : J.Fields → J.Fields → Type 0
  IsStripped process process' =
      All (λ k. J.get k process' ≡ none) process_keys
      × ((k : Text) → All (λ j. k ≢ j) process_keys → J.get k process' ≡ J.get k process)

  module _ (L : JsonLaws J) where
    adapt_linux-IsAdapted : (linux : J.Fields) → IsAdapted linux (adapt_linux J linux)
    unfolding adapt_linux Text-discrete
    adapt_linux-IsAdapted linux =
        let new = J.insert (codes "namespaces") (vm_namespaces J) linux in
        let name = codes "namespaces" in
        let apart : All (λ k. name ≢ k) host_keys = (
          λ e. ground arith,
          (λ e. ground arith, (λ e. ground arith, (λ e. ground arith, (λ e. ground arith, tt)))),
        ) in
        (
          get-remove_each J L host_keys name new apart
              ∙ L.get-insert name name (vm_namespaces J) linux,
          remove_each-removed J L host_keys new,
          λ k h.
              let kept = get-remove_each J L host_keys k new h.1 in
              let other = L.get-insert name k (vm_namespaces J) linux in
              ground (arith, kept, other),
        )

    -- A key in the new spec, by what it is in the old one.
    adapt_fields-get :
        (mounts : List J.Value) (spec : J.Fields) (k : Text)
        → codes "process" ≢ k
        → J.get k (adapt_fields J mounts spec)
          ≡ ite (Text-discrete (codes "mounts") k) (some (J.array mounts)) (
              ite
                (Text-discrete (codes "hostname") k)
                none
                (J.get k (on_member J (codes "linux") (adapt_linux J) spec)))
    unfolding adapt_fields
    adapt_fields-get mounts spec k h =
        let linux = on_member J (codes "linux") (adapt_linux J) spec in
        let bare = J.remove (codes "hostname") linux in
        let mounted = J.insert (codes "mounts") (J.array mounts) bare in
        ground (
          arith,
          get-on_member J L (codes "process") k (remove_each J process_keys) mounted,
          L.get-insert (codes "mounts") k (J.array mounts) bare,
          L.get-remove (codes "hostname") k linux,
        )

    process_get :
        (mounts : List J.Value) (spec process : J.Fields)
        → J.get (codes "process") spec ≡ some (J.object process)
        → J.get (codes "process") (adapt_fields J mounts spec)
          ≡ some (J.object (remove_each J process_keys process))
    unfolding adapt_fields Text-discrete
    process_get mounts spec process e =
        let name = codes "process" in
        let linux = on_member J (codes "linux") (adapt_linux J) spec in
        let bare = J.remove (codes "hostname") linux in
        let mounted = J.insert (codes "mounts") (J.array mounts) bare in
        let there : J.get name mounted ≡ some (J.object process) =
          L.get-insert (codes "mounts") name (J.array mounts) bare
          ∙ L.get-remove (codes "hostname") name linux
          ∙ get-on_member J L (codes "linux") name (adapt_linux J) spec
          ∙ e in
        get-on_member J L name name (remove_each J process_keys) mounted
        ∙ rw (there, on_object-object J L (remove_each J process_keys) process) refl

    -- For a spec with an object at `linux` and one at `process`, and a `serde_json` that behaves as
    -- documented: in the adapted spec the mounts are the four of the system and then those of the
    -- volumes, there is no hostname, and every key that is none of the four that are looked at is
    -- as it was. The `linux` object has the mount and the PID namespace as its only ones, none of
    -- the five keys that speak of the host, and all others as they were; the `process` object has
    -- lost the two keys of the security modules and the OOM score, and nothing else.
    pub adapt_oci_spec_for_vm-IsAdapted :
        (volumes : List VolumeInfo) (scans : List (List Text)) (known : List Text)
        (spec linux process : J.Fields)
        → J.get (codes "linux") spec ≡ some (J.object linux)
        → J.get (codes "process") spec ≡ some (J.object process)
        → (out : J.Fields) × ((adapt_oci_spec_for_vm J volumes scans known (J.object spec)).0
            ≡ J.object out)
          × ((linux' : J.Fields) × (J.get (codes "linux") out ≡ some (J.object linux'))
              × IsAdapted linux linux')
          × ((process' : J.Fields) × (J.get (codes "process") out ≡ some (J.object process'))
              × IsStripped process process')
          × (J.get (codes "mounts") out
              ≡ some (J.array (system_mounts J ++ (volume_mounts J volumes scans known).0)))
          × (J.get (codes "hostname") out ≡ none)
          × ((k : Text) → All (λ j. k ≢ j) spec_keys → J.get k out ≡ J.get k spec)
    unfolding adapt_oci_spec_for_vm Text-discrete
    adapt_oci_spec_for_vm-IsAdapted volumes scans known spec linux process e p =
        let mounts = system_mounts J ++ (volume_mounts J volumes scans known).0 in
        let at : (k : Text) → codes "process" ≢ k → _ = adapt_fields-get mounts spec in
        let old : (k : Text) → _ =
          (λ k. get-on_member J L (codes "linux") k (adapt_linux J) spec) in
        (
          adapt_fields J mounts spec,
          on_object-object J L (adapt_fields J mounts) spec,
          (
            adapt_linux J linux,
            at (codes "linux") (λ h. ground arith)
                ∙ old (codes "linux")
                ∙ rw (e, on_object-object J L (adapt_linux J) linux) refl,
            adapt_linux-IsAdapted linux,
          ),
          (
            remove_each J process_keys process,
            process_get mounts spec process p,
            (
              remove_each-removed J L process_keys process,
              λ k h. get-remove_each J L process_keys k process h,
            ),
          ),
          at (codes "mounts") (λ h. ground arith),
          at (codes "hostname") (λ h. ground arith),
          λ k h. ground (arith, at k (λ q. ground arith), old k),
        )
