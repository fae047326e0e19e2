-- ===== src/Agent/Disks.antt =====
-- container.rs `scan_block_devices` and `discover_block_device`: the disks of block volumes.
use containerd_cloudhypervis.Common.{
  ◌≡◌, ◌≢◌, refl, sym, subst, ◌∙◌, Bool, true, false, Option, none, some, List, [], ◌∷◌, ◌++◌, Text,
  codes, arith, if◌then◌else◌, All, All-mono, Text-discrete, ite, starts_with, append-left_cancel,
  inl, inr, Option-cases,
}

-- The names of /sys/block, as the scan keeps them.
unfoldable pub scan_block_devices : List Text → List Text
unfolding starts_with
scan_block_devices [] = []
scan_block_devices (name ∷ names) =
    let rest = scan_block_devices names in
    if starts_with (codes "vd") name then name ∷ rest else rest

unfoldable pub contains_disk : Text → List Text → Bool
unfolding Text-discrete
contains_disk d [] = false
contains_disk d (x ∷ xs) = ite (Text-discrete x d) true (contains_disk d xs)

-- The first of the difference of the two sets, in the order of iteration.
unfoldable pub first_new : List Text → List Text → Option Text
unfolding contains_disk
first_new [] known = none
first_new (d ∷ ds) known =
    let rest = first_new ds known in if contains_disk d known then rest else some d

abbrev discovered : Option Text → List Text → Option Text × List Text
discovered none known = (none, known)
discovered (some d) known = (some (codes "/dev/" ++ d), d ∷ known)

-- `names` is what /sys/block holds at the time; the list is `known_disks`.
unfoldable pub discover_block_device : List Text → List Text → Option Text × List Text
unfolding first_new scan_block_devices
discover_block_device names known = discovered (first_new (scan_block_devices names) known) known

-- The devices that are found one after the other, each with what /sys/block holds then.
unfoldable pub discover_all : List (List Text) → List Text → List Text
unfolding discover_block_device
discover_all [] known = []
discover_all (names ∷ rest) known =
    let (found, known') = discover_block_device names known in
    let more = discover_all rest known' in elim found [ none ↦ more | some path ↦ path ∷ more ]

-- The path of a disk `vd..` that was not known.
abbrev pub IsNew : List Text → Text → Type 0
IsNew known path =
    (d : Text) × (path ≡ codes "/dev/" ++ d)
    × (contains_disk d known ≡ false)
    × (starts_with (codes "vd") d ≡ true)

abbrev pub Unique : List Text → Type 0
Unique [] = Unit {0}
Unique (x ∷ xs) = All (λ y. y ≢ x) xs × Unique xs

first_new-scan :
    (names known : List Text) (d : Text)
    → first_new (scan_block_devices names) known ≡ some d
    → (contains_disk d known ≡ false) × (starts_with (codes "vd") d ≡ true)
unfolding first_new scan_block_devices
first_new-scan [] known d h = ground arith
first_new-scan (x ∷ names) known d h = ground (arith, first_new-scan names known d)

IsNew-weaken :
    (d : Text) (known : List Text) (path : Text) → IsNew (d ∷ known) path → IsNew known path
unfolding contains_disk
IsNew-weaken d known path (x, e, new, vd) = (x, e, ground arith, vd)

IsNew-other :
    (d : Text) (known : List Text) (path : Text)
    → IsNew (d ∷ known) path
    → path ≢ codes "/dev/" ++ d
unfolding contains_disk
IsNew-other d known path (x, e, new, vd) same =
    let again = append-left_cancel (codes "/dev/") x d (sym e ∙ same) in ground (arith, again)

discover_all-none :
    (names : List Text) (rest : List (List Text)) (known : List Text)
    → first_new (scan_block_devices names) known ≡ none
    → discover_all (names ∷ rest) known ≡ discover_all rest known
unfolding discover_all discover_block_device
discover_all-none names rest known e = ground (arith, e)

discover_all-some :
    (names : List Text) (rest : List (List Text)) (known : List Text) (d : Text)
    → first_new (scan_block_devices names) known ≡ some d
    → discover_all (names ∷ rest) known ≡ (codes "/dev/" ++ d) ∷ discover_all rest (d ∷ known)
unfolding discover_all discover_block_device
discover_all-some names rest known d e = ground (arith, e)

-- However /sys/block changes between the scans, no two block volumes get one device, and none gets a
-- disk that was known before; every device found is a virtio disk.
pub discover_all-Unique :
    (scans : List (List Text)) (known : List Text)
    → Unique (discover_all scans known) × All (IsNew known) (discover_all scans known)
unfolding discover_all
discover_all-Unique [] known = (tt, tt)
discover_all-Unique (names ∷ rest) known =
    elim (Option-cases (first_new (scan_block_devices names) known)) [
      | inl e ↦
          subst Good (sym (discover_all-none names rest known e)) (discover_all-Unique rest known)
      | inr (d, e) ↦
          let (apart, new) = discover_all-Unique rest (d ∷ known) in
          let (unknown, vd) = first_new-scan names known d e in
          subst Good (sym (discover_all-some names rest known d e)) (
            (All-mono (IsNew-other d known) _ new, apart),
            ((d, refl, unknown, vd), All-mono (IsNew-weaken d known) _ new),
          )
    ]
  where
    Good : List Text → Type 0
    Good ps = Unique ps × All (IsNew known) ps
