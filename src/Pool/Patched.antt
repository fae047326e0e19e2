-- ===== src/Pool/Patched.antt =====
-- vm_lifecycle.rs `prepare_snapshot`: the config with the VM's own vsock.
use containerd_cloudhypervis.Common.{
  ℕ, ◌≡◌, ◌≢◌, refl, ◌∙◌, some, Text, codes, Text-discrete, arith,
}
use containerd_cloudhypervis.Json.{JsonOps, JsonLaws, on_member, on_object-object, get-on_member}
use containerd_cloudhypervis.Pool.Snapshot.{patch_vsock, patch_serial, patch_config}

module _ (J : JsonOps) where
  -- The `vsock` object has the new CID and socket, and is otherwise as it was.
  abbrev pub IsPatched : ℕ → Text → J.Fields → J.Fields → Type 0
  IsPatched cid socket vsock vsock' =
      (J.get (codes "cid") vsock' ≡ some (J.number cid))
      × (J.get (codes "socket") vsock' ≡ some (J.text socket))
      × ((k : Text) → codes "cid" ≢ k → codes "socket" ≢ k → J.get k vsock' ≡ J.get k vsock)

  -- The new config, apart from what `serial` becomes.
  abbrev pub IsConfig : ℕ → Text → J.Fields → J.Fields → J.Fields → Type 0
  IsConfig cid socket config vsock out =
      ((vsock' : J.Fields) × (J.get (codes "vsock") out ≡ some (J.object vsock'))
        × IsPatched cid socket vsock vsock')
      × ((k : Text) → codes "vsock" ≢ k → codes "serial" ≢ k → J.get k out ≡ J.get k config)

  module _ (L : JsonLaws J) where
    patch_vsock-IsPatched :
        (cid : ℕ) (socket : Text) (vsock : J.Fields)
        → IsPatched cid socket vsock (patch_vsock J cid socket vsock)
    unfolding patch_vsock Text-discrete
    patch_vsock-IsPatched cid socket vsock =
        let cid_key = codes "cid" in
        let socket_key = codes "socket" in
        let first = J.insert cid_key (J.number cid) vsock in
        (
          L.get-insert socket_key cid_key (J.text socket) first
              ∙ L.get-insert cid_key cid_key (J.number cid) vsock,
          L.get-insert socket_key socket_key (J.text socket) first,
          λ k h h'.
              let outer = L.get-insert socket_key k (J.text socket) first in
              let inner = L.get-insert cid_key k (J.number cid) vsock in
              ground (arith, outer, inner),
        )

    pub patch_config-IsConfig :
        (cid : ℕ) (socket console : Text) (config vsock : J.Fields)
        → J.get (codes "vsock") config ≡ some (J.object vsock)
        → IsConfig cid socket config vsock (patch_config J cid socket console config)
    unfolding patch_config Text-discrete
    patch_config-IsConfig cid socket console config vsock e =
        let inner = on_member J (codes "vsock") (patch_vsock J cid socket) config in
        let outer =
          λ (k : Text). get-on_member J L (codes "serial") k (patch_serial J console) inner in
        let old =
          λ (k : Text). get-on_member J L (codes "vsock") k (patch_vsock J cid socket) config in
        (
          (
            patch_vsock J cid socket vsock,
            outer (codes "vsock")
                ∙ old (codes "vsock")
                ∙ rw (e, on_object-object J L (patch_vsock J cid socket) vsock) refl,
            patch_vsock-IsPatched cid socket vsock,
          ),
          λ k h h'. ground (arith, outer k, old k),
        )
