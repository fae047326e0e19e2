-- ===== src/Pool/Prepared.antt =====
-- vm_lifecycle.rs `prepare_snapshot`: what the directory holds that it answers with.
use mathlib.Core.List.{append_assoc}
use containerd_cloudhypervis.Common.{
  starts_with, join_below, join-injective, subst, append-left_cancel, sym, ◌++◌, ℕ, ◌≡◌, ◌≢◌, refl,
  ◌∙◌, ◌⊎◌, inl, inr, Bool, true, false, some, Text, codes, Result, ok, err, Bool-cases, ◌==◌, join,
  lookup, insert, lookup-insert, arith,
}
use containerd_cloudhypervis.Json.{JsonOps, JsonLaws, on_object-object}
use containerd_cloudhypervis.Pool.Patched.{IsConfig, patch_config-IsConfig}
use containerd_cloudhypervis.Pool.Snapshot.{
  File, linked_to, copy_of, empty, document, Files, SnapshotTrial, Linked, linked, refused,
  SnapshotError, create_dir, M, ◌>>◌, attempt, attempt_with, put_file, write_config_in,
  patch_config, link_file, prepare_snapshot,
}

-- What holds of the files and the answer where a call succeeds.
abbrev Ends : {V A : Type 0} → (A → Files V → Type 0) → Result SnapshotError A × Files V → Type 0
Ends P (ok a, d) = P a d
Ends P (err e, d) = Unit

abbrev pub IsFrom : {V : Type 0} → Text → File V → Type 0
IsFrom path file = (file ≡ linked_to path) ⊎ (file ≡ copy_of path)

attempt-Ends :
    {V A : Type 0} (P : A → Files V → Type 0) (b : Bool) (e : SnapshotError) (k : M V A)
    (d : Files V)
    → Ends P (k d)
    → Ends P ((attempt b e >> k) d)
unfolding attempt
attempt-Ends P true e k d h = h
attempt-Ends P false e k d h = tt

link_file-Ends :
    {V A : Type 0} (P : A → Files V → Type 0) (base work name : Text) (o : Linked) (k : M V A)
    (d : Files V)
    → ((f : File V) → IsFrom (join base name) f → Ends P (k (insert (join work name) f d)))
    → Ends P ((link_file base work name o >> k) d)
unfolding link_file attempt put_file
link_file-Ends P base work name linked k d h = h (linked_to (join base name)) (inl refl)
link_file-Ends P base work name (refused errno true) k d h = elim (Bool-cases (errno == 18)) [
  | inl crossed ↦ rw crossed (h (copy_of (join base name)) (inr refl))
  | inr other ↦ rw other tt
]
link_file-Ends P base work name (refused errno false) k d h = elim (Bool-cases (errno == 18)) [
  | inl crossed ↦ rw crossed tt
  | inr other ↦ rw other tt
]

-- The paths of the files differ.
console-apart :
    (vm name : Text)
    → starts_with (codes "/") name ≡ false
    → join (join vm (codes "snapshot")) name ≢ join vm (codes "console.log")
unfolding join
console-apart vm name h e =
    let work = join vm (codes "snapshot") in
    let (zs, below) = join_below work name h in
    let same = sym (append_assoc _ (codes "snapshot") zs) ∙ sym below ∙ e in
    let tail = append-left_cancel _ (codes "snapshot" ++ zs) (codes "console.log") same in
    ground (arith, tail)

found : {V : Type 0} (k : Text) (f : File V) (d : Files V) → lookup k (insert k f d) ≡ some f
found k f d = ground (arith, lookup-insert k k f d)

past :
    {V : Type 0} (k j : Text) (f : File V) (d : Files V)
    → k ≢ j
    → lookup j (insert k f d) ≡ lookup j d
past k j f d h = ground (arith, lookup-insert k j f d)

-- A file of the snapshot that is not copied over: it is the base's, by a hard link or a copy.
abbrev pub IsImage : {V : Type 0} → Text → Text → Text → Files V → Type 0
IsImage {V = V} base work name d =
    (file : File V) × (lookup (join work name) d ≡ some file) × IsFrom (join base name) file

module _ (J : JsonOps) where
  abbrev pub Prepared : Text → Text → ℕ → Text → J.Fields → J.Fields → Text → Files J.Value → Type 0
  Prepared base vm cid socket config vsock work d =
      (work ≡ join vm (codes "snapshot"))
      × ((out : J.Fields) × (lookup (join work (codes "config.json")) d
            ≡ some (document (J.object out)))
          × IsConfig J cid socket config vsock out)
      × IsImage base work (codes "memory-ranges") d
      × IsImage base work (codes "state.json") d

  module _ (L : JsonLaws J) (base vm : Text) (cid : ℕ) (socket : Text) (config vsock : J.Fields)
      (e : J.get (codes "vsock") config ≡ some (J.object vsock)) where
    -- The files in the end.
    written-Prepared :
        (memory state : File J.Value) (d : Files J.Value)
        → IsFrom (join base (codes "memory-ranges")) memory
        → IsFrom (join base (codes "state.json")) state
        → let work = join vm (codes "snapshot") in
          let console = join vm (codes "console.log") in
          Prepared base vm cid socket config vsock work (
            insert
              (join work (codes "config.json"))
              (document (J.object (patch_config J cid socket console config)))
              (insert console empty (
                insert
                  (join work (codes "state.json"))
                  state
                  (insert (join work (codes "memory-ranges")) memory d))))
    unfolding starts_with
    written-Prepared memory state d m s =
        let work = join vm (codes "snapshot") in
        let console = join vm (codes "console.log") in
        let patched = document (J.object (patch_config J cid socket console config)) in
        let first : Files J.Value = insert (join work (codes "memory-ranges")) memory d in
        let second : Files J.Value = insert (join work (codes "state.json")) state first in
        let third : Files J.Value = insert console empty second in
        (
          refl,
          (
            patch_config J cid socket console config,
            found (join work (codes "config.json")) patched third,
            patch_config-IsConfig J L cid socket console config vsock e,
          ),
          (
            memory,
            past (join work (codes "config.json")) (join work (codes "memory-ranges")) patched third
                  (λ h. ground (
                    arith,
                    join-injective work (codes "config.json") (codes "memory-ranges") refl refl h,
                  ))
                ∙ past console (join work (codes "memory-ranges")) empty second
                    (λ h. console-apart vm (codes "memory-ranges") refl (sym h))
                ∙ past (join work (codes "state.json")) (join work (codes "memory-ranges")) state
                    first
                    (λ h. ground (
                      arith,
                      join-injective work (codes "state.json") (codes "memory-ranges") refl refl h,
                    ))
                ∙ found (join work (codes "memory-ranges")) memory d,
            m,
          ),
          (
            state,
            past (join work (codes "config.json")) (join work (codes "state.json")) patched third
                  (λ h. ground (
                    arith,
                    join-injective work (codes "config.json") (codes "state.json") refl refl h,
                  ))
                ∙ past console (join work (codes "state.json")) empty second
                    (λ h. console-apart vm (codes "state.json") refl (sym h))
                ∙ found (join work (codes "state.json")) state first,
            s,
          ),
        )

    write_config_in-Ends :
        (memory state : File J.Value) (t : SnapshotTrial J.Value) (d : Files J.Value)
        → t.config ≡ some (J.object config)
        → IsFrom (join base (codes "memory-ranges")) memory
        → IsFrom (join base (codes "state.json")) state
        → let work = join vm (codes "snapshot") in
          Ends (Prepared base vm cid socket config vsock) (
            write_config_in J work vm cid socket t (
              insert
                (join work (codes "state.json"))
                state
                (insert (join work (codes "memory-ranges")) memory d)))
    unfolding write_config_in attempt_with attempt put_file
    write_config_in-Ends memory state t d c m s =
        let done = written-Prepared memory state d m s in
        rw
          (
            c,
            on_object-object J L (patch_config J cid socket (join vm (codes "console.log"))) config,
          )
          (elim (Bool-cases t.console_made) [
            | inr failed ↦ rw failed tt
            | inl made ↦ rw made (elim (Bool-cases t.written) [
              | inr failed ↦ rw failed tt
              | inl written ↦ rw written done
            ])
          ])

    prepare_snapshot-Ends :
        (t : SnapshotTrial J.Value) (d : Files J.Value)
        → t.config ≡ some (J.object config)
        → Ends
            (Prepared base vm cid socket config vsock)
            (prepare_snapshot J base vm cid socket t d)
    unfolding prepare_snapshot
    prepare_snapshot-Ends t d c =
        let P : Text → Files J.Value → Type 0 = Prepared base vm cid socket config vsock in
        let work = join vm (codes "snapshot") in
        let last : M J.Value Text = write_config_in J work vm cid socket t in
        let linked_state : M J.Value Text =
          link_file base work (codes "state.json") t.state >> last in
        attempt-Ends P t.dir_made create_dir
          (link_file base work (codes "memory-ranges") t.memory >> linked_state) d
          (link_file-Ends P base work (codes "memory-ranges") t.memory linked_state d (λ memory m.
            link_file-Ends P base work (codes "state.json") t.state last _
              (λ state s. write_config_in-Ends memory state t d c m s)))

    -- With a `serde_json` that behaves as documented and a base whose config is an object with an
    -- object at `vsock`: where `prepare_snapshot` succeeds, it answers with the directory
    -- "snapshot" of the VM. There, the memory and the state are the base's files, linked or copied,
    -- and config.json is the base's with the VM's own CID and socket in `vsock`; outside of `vsock`
    -- and `serial` it is unchanged.
    pub prepare_snapshot-Prepared :
        (t : SnapshotTrial J.Value) (d d' : Files J.Value) (work : Text)
        → t.config ≡ some (J.object config)
        → prepare_snapshot J base vm cid socket t d ≡ (ok work, d')
        → Prepared base vm cid socket config vsock work d'
    prepare_snapshot-Prepared t d d' work c r =
        subst (Ends (Prepared base vm cid socket config vsock)) r (prepare_snapshot-Ends t d c)
