-- ===== src/Agent/Paths.antt =====
-- container.rs `create`: the files of inline volumes, and the check of their paths.
use containerd_cloudhypervis.Common.{
  ℕ, ◌≡◌, ◌≢◌, refl, sym, ap, ◌∙◌, ◌⊎◌, inl, inr, Bool, true, false, ◌||◌, List, [], ◌∷◌, ◌++◌,
  Text, codes, arith, if◌then◌else◌, ◌==◌, All, Bool-cases, Text-discrete, ite, join, starts_with,
  join_below,
}
use mathlib.Core.List.{append_assoc}

pub record InlineFileInfo : Type 0 where
  pub path : Text
  pub content : Text
  pub mode : ℕ

pub record VolumeInfo : Type 0 where
  pub destination : Text
  pub source : Text
  pub readonly : Bool
  pub is_block : Bool
  pub fs_type : Text
  pub inline_files : List InlineFileInfo

-- `str::contains`
unfoldable pub contains : Text → Text → Bool
unfolding starts_with
contains pat [] = starts_with pat []
contains pat (c ∷ cs) = starts_with pat (c ∷ cs) || contains pat cs

unfoldable pub is_unsafe : Text → Bool
unfolding contains starts_with
is_unsafe path =
    starts_with (codes "/") path
    || contains (codes "../") path
    || contains (codes "/..") path
    || ite (Text-discrete path (codes "..")) true false

-- `rsplit('/').next()`: what follows the last slash.
unfoldable pub last_part : Text → Text
last_part [] = []
last_part (c ∷ cs) =
    let rest = last_part cs in
    if contains (codes "/") cs then rest else if c == b'/' then cs else c ∷ cs

unfoldable pub volume_dir : Text → VolumeInfo → Text
unfolding last_part
volume_dir mount_point vol = join (join mount_point (codes "volumes")) (last_part vol.source)

-- The files of one volume that are written if no write fails, with their contents.
unfoldable pub write_files : Text → List InlineFileInfo → List (Text × Text)
unfolding is_unsafe
write_files dir [] = []
write_files dir (f ∷ fs) =
    let rest = write_files dir fs in
    if is_unsafe f.path then rest else (join dir f.path, f.content) ∷ rest

unfoldable pub write_volumes : Text → List VolumeInfo → List (Text × Text)
unfolding write_files volume_dir
write_volumes mount_point [] = []
write_volumes mount_point (vol ∷ vols) =
    let rest = write_volumes mount_point vols in
    if vol.is_block then rest else write_files (volume_dir mount_point vol) vol.inline_files ++ rest

-- The text before a component of a path: nothing, or it ends with a slash.
abbrev pub Before : Text → Type 0
Before xs = (xs ≡ []) ⊎ ((ys : Text) × (xs ≡ ys ++ b'/' ∷ []))

-- The text after a component: nothing, or it begins with a slash.
abbrev pub After : Text → Type 0
After xs = (xs ≡ []) ⊎ ((ys : Text) × (xs ≡ b'/' ∷ ys))

starts_with-append : (ps xs : Text) → starts_with ps (ps ++ xs) ≡ true
unfolding starts_with
starts_with-append [] xs = refl
starts_with-append (p ∷ ps) xs = ground (arith, starts_with-append ps xs)

contains-append : (ps xs ys : Text) → contains ps (xs ++ (ps ++ ys)) ≡ true
unfolding contains
contains-append [] [] [] = refl
contains-append [] [] (y ∷ ys) = refl
contains-append (p ∷ ps) [] ys = ground (arith, starts_with-append (p ∷ ps) ys)
contains-append ps (x ∷ xs) ys = ground (arith, contains-append ps xs ys)

unsafe_second : (p : Text) → contains (codes "../") p ≡ true → is_unsafe p ≡ true
unfolding is_unsafe
unsafe_second p h = ground (arith, h)

unsafe_third : (p : Text) → contains (codes "/..") p ≡ true → is_unsafe p ≡ true
unfolding is_unsafe
unsafe_third p h = ground (arith, h)

safe-relative : (p : Text) → is_unsafe p ≡ false → starts_with (codes "/") p ≡ false
unfolding is_unsafe
safe-relative p h = ground (arith, h)

true-ne-false : true ≢ false
true-ne-false e = cc

-- A path with a component `..` is not accepted, wherever the component stands in it.
is_unsafe-parent :
    (xs ys : Text) → Before xs → After ys → is_unsafe (xs ++ (codes ".." ++ ys)) ≡ true
unfolding Text-discrete
is_unsafe-parent xs ys (inr (zs, e)) a =
    unsafe_third _
      (rw (e, append_assoc zs (b'/' ∷ []) (codes ".." ++ ys)) (contains-append (codes "/..") zs ys))
is_unsafe-parent xs ys (inl e) (inr (zs, f)) =
    unsafe_second _ (rw (e, f) (contains-append (codes "../") [] zs))
is_unsafe-parent xs ys (inl e) (inl f) = rw (e, f) (unfold is_unsafe in refl)

-- The path lies below the directory: it extends it, by a relative path of which no component is `..`.
abbrev pub IsInside : Text → Text → Type 0
IsInside dir path =
    (rel : Text) × (rest : Text) × (path ≡ join dir rel)
    × (path ≡ dir ++ rest)
    × ((xs ys : Text) → Before xs → After ys → rel ≢ xs ++ (codes ".." ++ ys))

-- Whatever paths a request names, every inline file is written below the directory of its volume: its
-- path is that directory with a relative path of which no component is `..`, in any position.
pub write_files-IsInside :
    (dir : Text) (fs : List InlineFileInfo)
    → All (λ (w : Text × Text). IsInside dir w.0) (write_files dir fs)
unfolding write_files
write_files-IsInside dir [] = tt
write_files-IsInside dir (f ∷ fs) =
    let rest = write_files-IsInside dir fs in
    elim (Bool-cases (is_unsafe f.path)) [
      | inl bad ↦ rw bad rest
      | inr fine ↦ rw fine (inside fine, rest)
    ]
  where
    inside : is_unsafe f.path ≡ false → IsInside dir (join dir f.path)
    inside fine =
        let (zs, below) = join_below dir f.path (safe-relative f.path fine) in
        (
          f.path,
          zs,
          refl,
          below,
          λ xs ys b a e.
              true-ne-false (sym (is_unsafe-parent xs ys b a) ∙ ap is_unsafe (sym e) ∙ fine),
        )
