-- ===== src/Shadow/Cache.antt =====
-- The snapshot cache of shadow.rs: `has_snapshot`, `get_snapshot_dir` and the insertion with LRU
-- eviction at the end of `run_shadow`.
use containerd_cloudhypervis.Common.{
  ℕ, zero, suc, Bool, true, false, Option, none, some, List, [], ◌∷◌, Text, length, lookup, insert,
  remove, update, if◌then◌else◌, ltb, ◌==◌,
}
use containerd_cloudhypervis.Pool.State.{remove_dir}

pub record SnapshotEntry : Type 0 where
  pub dir : Text
  pub last_used : ℕ
  pub erofs_mtime : Option ℕ

-- `disk` lists the snapshot directories that exist.
pub record Snapshots : Type 0 where
  pub max_snapshots : ℕ
  pub entries : List (Text × SnapshotEntry)
  pub disk : List Text

-- `snapshots.remove(key)` with `remove_dir_all` on the entry's directory.
unfoldable pub discard : Text → SnapshotEntry → Snapshots → Snapshots
discard key entry s = record s {
  entries = remove key s.entries;
  disk = remove_dir entry.dir s.disk;
}

-- Both times are known and they differ.
unfoldable pub is_stale : Option (Option ℕ) → Option ℕ → Bool
is_stale none m = false
is_stale (some none) m = false
is_stale (some (some now)) none = false
is_stale (some (some now)) (some m) = if now == m then false else true

unfoldable pub check_entry :
    Text → Option (Option ℕ) → Option SnapshotEntry → Snapshots → Bool × Snapshots
unfolding is_stale discard
check_entry key erofs none s = (false, s)
check_entry key erofs (some entry) s =
    if is_stale erofs entry.erofs_mtime then (false, discard key entry s) else (true, s)

-- `erofs` is `none` if the caller gives no path; otherwise it is what reading the file's mtime gives.
unfoldable pub has_snapshot : Text → Option (Option ℕ) → Snapshots → Bool × Snapshots
unfolding check_entry
has_snapshot key erofs s = check_entry key erofs (lookup key s.entries) s

unfoldable pub get_snapshot_dir : Text → ℕ → Snapshots → Option Text × Snapshots
get_snapshot_dir key now s = elim (lookup key s.entries) [
  | none ↦ (none, s)
  | some entry ↦ (
    some entry.dir,
    record s { entries = update key (λ e. record e { last_used = now }) s.entries },
  )
]

-- `min_by_key`: the first of the least recently used, in the order of iteration.
unfoldable pub oldest : Text × SnapshotEntry → List (Text × SnapshotEntry) → Text × SnapshotEntry
oldest x [] = x
oldest (k, e) ((j, f) ∷ m) = oldest (if ltb f.last_used e.last_used then (j, f) else (k, e)) m

unfoldable pub lru_key : List (Text × SnapshotEntry) → Option Text
unfolding oldest
lru_key [] = none
lru_key (x ∷ m) = some (oldest x m).0

unfoldable pub evict_one : Option SnapshotEntry → Text → Snapshots → Snapshots
unfolding discard
evict_one none key s = s
evict_one (some entry) key s = discard key entry s

-- `while snapshots.len() >= self.max_snapshots`. The fuel bounds the rounds.
unfoldable pub evict : ℕ → Snapshots → Snapshots
unfolding evict_one lru_key
evict zero s = s
evict (suc fuel) s =
    if ltb (length s.entries) s.max_snapshots then s else elim (lru_key s.entries) [
      | none ↦ s
      | some key ↦ evict fuel (evict_one (lookup key s.entries) key s)
    ]

unfoldable pub cache_snapshot : Text → SnapshotEntry → Snapshots → Snapshots
cache_snapshot key entry s =
    let s' = evict (suc (length s.entries)) s in record s' { entries = insert key entry s'.entries }
