-- ===== src/Shim/Slices.antt =====
-- instance.rs `build_systemd_cgroup_path` on the names of slices.
use containerd_cloudhypervis.Common.{
  ◌-◌, ◌≡◌, ◌≢◌, refl, sym, ap, ◌∙◌, true, List, [], ◌∷◌, ◌++◌, map, Text, codes, length, take,
  length-append, drop-append, leb, All, arith, join_with, split-join_with, Lacks,
}
use mathlib.Core.List.{append_assoc}
use containerd_cloudhypervis.Shim.Cgroups.{strip_end, slices, build_systemd_cgroup_path}

-- A segment of a slice's name: not empty, and without a dash.
abbrev pub IsSegment : Text → Type 0
IsSegment seg = (seg ≢ []) × All (λ c. c ≢ b'-') seg

Segments-Lacks : (segs : List Text) → All IsSegment segs → All (Lacks b'-') segs
Segments-Lacks [] h = tt
Segments-Lacks (seg ∷ segs) h = (h.0.1, Segments-Lacks segs h.1)

take-length : (xs ys : Text) → take (length xs) (xs ++ ys) ≡ xs
take-length [] ys = refl
take-length (x ∷ xs) ys = ap (λ r. x ∷ r) (take-length xs ys)

strip_end-append : (name end : Text) → strip_end end (name ++ end) ≡ name
unfolding strip_end
strip_end-append name end =
    let n : length (name ++ end) - length end ≡ length name =
      omega (arith, length-append name end) in
    let room : leb (length end) (length (name ++ end)) ≡ true =
      ground (arith, length-append name end) in
    rw (n, room, drop-append name end, take-length name end) (ground arith)

-- The names of a slice's ancestors and its own: one segment more each time.
unfoldable pub lineage : List Text → List Text → List Text
unfolding join_with
lineage before [] = []
lineage before (seg ∷ segs) =
    join_with b'-' (before ++ seg ∷ []) ∷ lineage (before ++ seg ∷ []) segs

join_with-append :
    (first : Text) (before : List Text) (seg : Text)
    → join_with b'-' (first ∷ before ++ seg ∷ []) ≡ join_with b'-' (first ∷ before) ++ b'-' ∷ seg
unfolding join_with
join_with-append first [] seg = refl
join_with-append first (next ∷ before) seg =
    ap (λ r. first ++ b'-' ∷ r) (join_with-append next before seg) ∙ sym (append_assoc first _ _)

slices_grow :
    (prefix seg : Text) (segs : List Text)
    → prefix ≢ []
    → slices prefix (seg ∷ segs)
      ≡ ((prefix ++ b'-' ∷ seg) ++ codes ".slice") ∷ slices (prefix ++ b'-' ∷ seg) segs
unfolding slices
slices_grow [] seg segs h = absurd (h refl)
slices_grow (p ∷ prefix) seg segs h = refl

join_with-ne-nil :
    (first : Text) (before : List Text) → first ≢ [] → join_with b'-' (first ∷ before) ≢ []
unfolding join_with
join_with-ne-nil first [] h = h
join_with-ne-nil [] (next ∷ before) h = absurd (h refl)
join_with-ne-nil (c ∷ first) (next ∷ before) h = λ e. cc

abbrev pub slice_name : Text → Text
slice_name name = name ++ codes ".slice"

slices-lineage :
    (first : Text) (before segs : List Text)
    → first ≢ []
    → slices (join_with b'-' (first ∷ before)) segs ≡ map slice_name (lineage (first ∷ before) segs)
unfolding lineage
slices-lineage first before [] h = unfold slices in refl
slices-lineage first before (seg ∷ segs) h =
    slices_grow (join_with b'-' (first ∷ before)) seg segs (join_with-ne-nil first before h)
    ∙ rw (sym (join_with-append first before seg)) (
        ap (λ r. slice_name (join_with b'-' (first ∷ before ++ seg ∷ [])) ∷ r)
          (slices-lineage first (before ++ seg ∷ []) segs h))

slices_start :
    (seg : Text) (segs : List Text)
    → seg ≢ []
    → slices [] (seg ∷ segs) ≡ map slice_name (lineage [] (seg ∷ segs))
unfolding lineage slices join_with
slices_start [] segs h = absurd (h refl)
slices_start (c ∷ seg) segs h =
    ap (λ r. slice_name (c ∷ seg) ∷ r) (slices-lineage (c ∷ seg) [] segs h)

-- The path of a slice whose name has segments between its dashes is that of its ancestors, each
-- under its full name with ".slice", down to the slice itself.
pub build_systemd_cgroup_path-lineage :
    (seg : Text) (segs : List Text)
    → All IsSegment (seg ∷ segs)
    → build_systemd_cgroup_path (slice_name (join_with b'-' (seg ∷ segs)))
      ≡ join_with b'/' (map slice_name (lineage [] (seg ∷ segs)))
unfolding build_systemd_cgroup_path
build_systemd_cgroup_path-lineage seg segs h =
    rw
      (
        strip_end-append (join_with b'-' (seg ∷ segs)) (codes ".slice"),
        split-join_with b'-' seg segs (Segments-Lacks (seg ∷ segs) h),
        slices_start seg segs h.0.0,
      )
      refl
