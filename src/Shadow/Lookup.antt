-- ===== src/Shadow/Lookup.antt =====
-- What the snapshot cache of shadow.rs promises its users.
use containerd_cloudhypervis.Common.{
  ℕ, suc, ◌≤◌, ◌≡◌, ◌≢◌, refl, inl, inr, true, false, Option, none, some, [], ◌∷◌, Text, length,
  lookup, insert, arith, Distinct, lookup-insert, lookup-remove_self, lookup-remove_ne,
  length-insert, insert-Distinct, Option-cases,
}
use containerd_cloudhypervis.Shadow.Cache.{
  SnapshotEntry, Snapshots, has_snapshot, evict, cache_snapshot,
}
use containerd_cloudhypervis.Shadow.Eviction.{evict_room, evict-lookup, evict-lru}

-- In a cache with no key twice, a positive answer of `has_snapshot` leaves the cache alone and is
-- about a cached entry; if the image's mtime is known now and was known when the snapshot was
-- taken, the two are equal. After a negative answer the key is not cached any more. No other key
-- is touched.
pub has_snapshot-valid :
    (key : Text) (erofs : Option (Option ℕ)) (s : Snapshots)
    → Distinct s.entries
    → let (found, t) = has_snapshot key erofs s in
      (found ≡ true
        → (t ≡ s)
          × ((e : SnapshotEntry) × (lookup key s.entries ≡ some e)
              × ((now m : ℕ) → erofs ≡ some (some now) → e.erofs_mtime ≡ some m → now ≡ m)))
      × (found ≡ false → lookup key t.entries ≡ none)
      × ((j : Text) → key ≢ j → lookup j t.entries ≡ lookup j s.entries)
unfolding has_snapshot
has_snapshot-valid key erofs s d = elim (Option-cases (lookup key s.entries)) [
  | inl e ↦ rw (e, has_snapshot) ((λ h. cc), (λ h. e), (λ j n. refl))
  | inr (x, e) ↦
      rw (e, has_snapshot)
        (
          (λ h. (ground arith, (x, refl, λ now m p q. ground arith))),
          (λ h. ground (arith, lookup-remove_self key s.entries d)),
          (λ j n. ground (arith, lookup-remove_ne key j s.entries n)),
        )
]

-- In a cache with no key twice, caching a snapshot binds its key to it, invents no other entry,
-- and keeps the cache within `max_snapshots`, provided that this is at least one.
pub cache_snapshot-bounded :
    (key : Text) (entry : SnapshotEntry) (s : Snapshots)
    → Distinct s.entries
    → 1 ≤ s.max_snapshots
    → let t = cache_snapshot key entry s in
      (length t.entries ≤ s.max_snapshots)
      × Distinct t.entries
      × (lookup key t.entries ≡ some entry)
      × ((j : Text) (f : SnapshotEntry)
          → key ≢ j
          → lookup j t.entries ≡ some f
          → lookup j s.entries ≡ some f)
unfolding cache_snapshot
cache_snapshot-bounded key entry s d h =
    let t = evict (suc (length s.entries)) s in
    let (m, dt, room) = evict_room (suc (length s.entries)) s d (omega arith) in
    (
      ground (arith, length-insert key entry t.entries, room),
      insert-Distinct key entry t.entries dt,
      ground (arith, lookup-insert key key entry t.entries),
      λ j f n x.
          evict-lookup (suc (length s.entries)) s j f d
            (ground (arith, lookup-insert key j entry t.entries)),
    )

-- In a cache with no key twice the eviction is LRU: an entry that gives way to the new snapshot
-- was used no later than any other entry that stays.
pub cache_snapshot-lru :
    (key i j : Text) (entry e f : SnapshotEntry) (s : Snapshots)
    → Distinct s.entries
    → key ≢ i
    → key ≢ j
    → lookup i s.entries ≡ some e
    → lookup i (cache_snapshot key entry s).entries ≡ none
    → lookup j (cache_snapshot key entry s).entries ≡ some f
    → e.last_used ≤ f.last_used
unfolding cache_snapshot
cache_snapshot-lru key i j entry e f s d ni nj hi gone kept =
    let t = evict (suc (length s.entries)) s in
    evict-lru (suc (length s.entries)) s i j e f d hi
      (ground (arith, lookup-insert key i entry t.entries))
      (ground (arith, lookup-insert key j entry t.entries))

-- A cache of capacity zero holds one snapshot all the same.
pub cache_snapshot-zero :
    (key : Text) (entry : SnapshotEntry) (s : Snapshots)
    → Distinct s.entries
    → s.max_snapshots ≡ 0
    → (cache_snapshot key entry s).entries ≡ (key, entry) ∷ []
unfolding cache_snapshot insert
cache_snapshot-zero key entry s d h =
    let (m, dt, room) = evict_room (suc (length s.entries)) s d (omega arith) in
    elim room [ inl r ↦ absurd (omega arith) | inr e ↦ rw e refl ]
