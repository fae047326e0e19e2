-- ===== src/Shim/Images.antt =====
-- instance.rs `prepare_erofs`: the cache of erofs images, which the shims of a host share. Outcomes of
-- the file system, of `flock` and of `mkfs.erofs` are given with each call.
use containerd_cloudhypervis.Common.{
  ℕ, ◌≡◌, Bool, true, false, Option, none, some, List, [], ◌∷◌, ◌++◌, Text, codes, Result, ok, err,
  if◌then◌else◌, ite, Text-discrete, show_dec, join,
}

pub data ErofsError : Type 0 where
  cache_dir lock_failed flock_failed no_mkfs mkfs_failed rename_failed : ErofsError

-- `appeared` are the images that other processes put into the cache before the lock is taken.
pub record ErofsTrial : Type 0 where
  pub dir_made : Bool
  pub lock_made : Bool
  pub locked : Bool
  pub appeared : List Text
  pub mkfs : Option Bool
  pub renamed : Bool

-- The paths of the images in the cache, and the runs of mkfs.erofs: target and root file system.
pub record Cache : Type 0 where
  pub images : List Text
  pub made : List (Text × Text)

unfoldable pub exists : Text → List Text → Bool
exists path [] = false
exists path (p ∷ ps) = ite (Text-discrete p path) true (exists path ps)

abbrev pub erofs_cache_dir : Text
erofs_cache_dir = codes "/run/cloudhv/erofs-cache"

unfoldable pub cache_path : Text → Text
unfolding join
cache_path key = join erofs_cache_dir (key ++ codes ".erofs")

unfoldable pub tmp_path : Text → ℕ → Text
unfolding join show_dec
tmp_path key pid = join erofs_cache_dir (key ++ (b'.' ∷ (show_dec pid ++ codes ".tmp")))

abbrev pub Outcome : Type 0
Outcome = Result ErofsError Text × Cache

-- After a run of mkfs.erofs, if it could be started.
after_mkfs : Text → Option Bool → Bool → Cache → Outcome
after_mkfs path none renamed c = (err no_mkfs, c)
after_mkfs path (some false) renamed c = (err mkfs_failed, c)
after_mkfs path (some true) renamed c =
    if renamed then (ok path, record c { images = path ∷ c.images }) else (err rename_failed, c)

started : Option Bool → Text → Text → Cache → Cache
started none tmp rootfs c = c
started (some done) tmp rootfs c = record c { made = (tmp, rootfs) ∷ c.made }

-- With the lock held.
under_lock : Text → Text → ℕ → ErofsTrial → Cache → Outcome
unfolding exists cache_path tmp_path after_mkfs started
under_lock rootfs key pid t c =
    if exists (cache_path key) c.images
    then (ok (cache_path key), c)
    else after_mkfs (cache_path key) t.mkfs t.renamed (started t.mkfs (tmp_path key pid) rootfs c)

unfoldable pub prepare_erofs : Text → Text → ℕ → ErofsTrial → Cache → Outcome
unfolding exists cache_path under_lock
prepare_erofs rootfs key pid t c =
    if exists (cache_path key) c.images
    then (ok (cache_path key), c)
    else if t.dir_made
    then (if t.lock_made
        then (if t.locked
            then under_lock rootfs key pid t (record c { images = t.appeared ++ c.images })
            else (err flock_failed, c))
        else (err lock_failed, c))
    else (err cache_dir, c)

-- What a call does to the cache, by its result.
abbrev pub Made : Text → Cache → Outcome → Type 0
Made path c (ok p, d) = (p ≡ path) × (exists path d.images ≡ true)
Made path c (err e, d) = Unit
