-- ===== src/Shadow/Eviction.antt =====
-- The eviction loop of shadow.rs ends, makes room, and drops the least recently used first.
use containerd_cloudhypervis.Common.{
  ℕ, zero, suc, ◌+◌, ◌≤◌, ◌<◌, ◌≡◌, refl, sym, ◌∙◌, ◌⊎◌, inl, inr, true, false, Option, none, some,
  List, [], ◌∷◌, Text, length, lookup, remove, ltb, arith, Distinct, lookup-remove_self,
  lookup-remove_ne, length-remove, remove-Distinct, Text-discrete, Bool-cases, All,
}
use containerd_cloudhypervis.Shadow.Cache.{
  SnapshotEntry, Snapshots, discard, oldest, lru_key, evict,
}

-- A binding stays visible behind one of a key that the rest does not bind.
lookup_behind :
    (k j r : Text) (e f v : SnapshotEntry) (m : List (Text × SnapshotEntry))
    → lookup k ((j, f) ∷ m) ≡ none
    → lookup r ((j, f) ∷ m) ≡ some v
    → lookup r ((k, e) ∷ (j, f) ∷ m) ≡ some v
unfolding lookup
lookup_behind k j r e f v m h g = ground arith

lookup_past :
    (k j r : Text) (e f v : SnapshotEntry) (m : List (Text × SnapshotEntry))
    → lookup j m ≡ none
    → lookup r ((k, e) ∷ m) ≡ some v
    → lookup r ((k, e) ∷ (j, f) ∷ m) ≡ some v
unfolding lookup
lookup_past k j r e f v m h g = ground arith

oldest-lookup :
    (k : Text) (e : SnapshotEntry) (m : List (Text × SnapshotEntry))
    → Distinct ((k, e) ∷ m)
    → lookup (oldest (k, e) m).0 ((k, e) ∷ m) ≡ some (oldest (k, e) m).1
unfolding oldest
oldest-lookup k e [] d = unfold lookup in ground arith
oldest-lookup k e ((j, f) ∷ m) d = elim (Bool-cases (ltb f.last_used e.last_used)) [
  | inl older ↦ rw older (lookup_behind k j _ e f _ m d.0 (oldest-lookup j f m d.1))
  | inr newer ↦
      rw newer
        (lookup_past k j _ e f _ m d.1.0 (oldest-lookup k e m (lookup_tail k j f m d.0, d.1.1)))
]
  where
    lookup_tail :
        (k j : Text) (f : SnapshotEntry) (m : List (Text × SnapshotEntry))
        → lookup k ((j, f) ∷ m) ≡ none
        → lookup k m ≡ none
    lookup_tail k j f m h = unfold lookup in ground arith

oldest_minimal :
    (n : ℕ) (k : Text) (e : SnapshotEntry) (m : List (Text × SnapshotEntry))
    → n ≡ (oldest (k, e) m).1.last_used
    → (n ≤ e.last_used) × All (λ (x : Text × SnapshotEntry). n ≤ x.1.last_used) m
unfolding oldest
oldest_minimal n k e [] q = (omega arith, tt)
oldest_minimal n k e ((j, f) ∷ m) q = elim (Bool-cases (ltb f.last_used e.last_used)) [
  | inl older ↦ let (a, b) = oldest_minimal n j f m (rw older at q) in (ground arith, (a, b))
  | inr newer ↦ let (a, b) = oldest_minimal n k e m (rw newer at q) in (a, (ground arith, b))
]

lookup-All :
    (n : ℕ) (j : Text) (f : SnapshotEntry) (m : List (Text × SnapshotEntry))
    → All (λ (x : Text × SnapshotEntry). n ≤ x.1.last_used) m
    → lookup j m ≡ some f
    → n ≤ f.last_used
unfolding lookup
lookup-All n j f [] a h = cc
lookup-All n j f ((i, g) ∷ m) a h = ground (arith, lookup-All n j f m a.1)

oldest-le :
    (k : Text) (e : SnapshotEntry) (m : List (Text × SnapshotEntry)) (j : Text) (f : SnapshotEntry)
    → lookup j ((k, e) ∷ m) ≡ some f
    → (oldest (k, e) m).1.last_used ≤ f.last_used
oldest-le k e m j f h = lookup-All _ j f ((k, e) ∷ m) (oldest_minimal _ k e m refl) h

-- The key that `evict` picks is that of an entry used no later than any other.
lru_key-le :
    (m : List (Text × SnapshotEntry)) (k : Text)
    → Distinct m
    → lru_key m ≡ some k
    → (e : SnapshotEntry) × (lookup k m ≡ some e)
      × ((j : Text) (f : SnapshotEntry) → lookup j m ≡ some f → e.last_used ≤ f.last_used)
unfolding lru_key
lru_key-le [] k d h = cc
lru_key-le ((i, g) ∷ m) k d h =
    ((oldest (i, g) m).1, ground (arith, oldest-lookup i g m d), λ j f x. oldest-le i g m j f x)

lru_key-some : (m : List (Text × SnapshotEntry)) → 0 < length m → (k : Text) × (lru_key m ≡ some k)
unfolding lru_key
lru_key-some [] h = absurd (omega arith)
lru_key-some (x ∷ m) h = ((oldest x m).0, refl)

-- One round of the loop: it stops with room to spare or an empty cache, or drops the oldest entry.
abbrev Round : ℕ → Snapshots → Type 0
Round fuel s =
    ((length s.entries < s.max_snapshots) × (evict (suc fuel) s ≡ s))
    ⊎ ((s.entries ≡ []) × (evict (suc fuel) s ≡ s))
    ⊎ ((k : Text) × (e : SnapshotEntry) × (lookup k s.entries ≡ some e)
        × ((j : Text) (f : SnapshotEntry) → lookup j s.entries ≡ some f → e.last_used ≤ f.last_used)
        × (evict (suc fuel) s ≡ evict fuel (discard k e s)))

evict-Round : (fuel : ℕ) (s : Snapshots) → Distinct s.entries → Round fuel s
unfolding evict
evict-Round fuel s d = by_room (Bool-cases (ltb (length s.entries) s.max_snapshots))
  where
    by_key :
        ltb (length s.entries) s.max_snapshots ≡ false
        → (o : Option Text) → lru_key s.entries ≡ o
        → Round fuel s
    by_key full none e = inr (inl (ground (arith, lru_key-some s.entries), ground arith))
    by_key full (some k) e =
        let (x, found, least) = lru_key-le s.entries k d e in
        inr (inr (k, x, found, least, ground arith))

    by_room :
        (ltb (length s.entries) s.max_snapshots ≡ true)
          ⊎ (ltb (length s.entries) s.max_snapshots ≡ false)
        → Round fuel s
    by_room (inl room) = inl (ground arith, rw (room, evict))
    by_room (inr full) = by_key full (lru_key s.entries) refl

discard-length :
    (k : Text) (e : SnapshotEntry) (s : Snapshots)
    → lookup k s.entries ≡ some e
    → length (discard k e s).entries + 1 ≡ length s.entries
unfolding discard
discard-length k e s h = ground (arith, length-remove k s.entries)

-- The loop ends by its test or on an empty cache: its fuel is enough.
pub evict_room :
    (fuel : ℕ) (s : Snapshots)
    → Distinct s.entries
    → length s.entries < fuel
    → let t = evict fuel s in
      (t.max_snapshots ≡ s.max_snapshots)
      × Distinct t.entries
      × ((length t.entries < s.max_snapshots) ⊎ (t.entries ≡ []))
unfolding discard
evict_room zero s d h = absurd (omega arith)
evict_room (suc fuel) s d h = elim (evict-Round fuel s d) [
  | inl (room, e) ↦ rw e (refl, d, inl room)
  | inr (inl (empty, e)) ↦ rw e (refl, d, inr empty)
  | inr (inr (k, x, found, least, e)) ↦ rw e (
      evict_room fuel (discard k x s) (remove-Distinct k s.entries d)
        (omega (arith, discard-length k x s found)))
]

lookup-before_remove :
    (k j : Text) (f : SnapshotEntry) (m : List (Text × SnapshotEntry))
    → Distinct m
    → lookup j (remove k m) ≡ some f
    → lookup j m ≡ some f
lookup-before_remove k j f m d h = elim (Text-discrete k j) [
  | yes same ↦ absurd (ground (arith, lookup-remove_self k m d))
  | no other ↦ sym (lookup-remove_ne k j m other) ∙ h
]

-- What the loop leaves was there before.
pub evict-lookup :
    (fuel : ℕ) (s : Snapshots) (j : Text) (f : SnapshotEntry)
    → Distinct s.entries
    → lookup j (evict fuel s).entries ≡ some f
    → lookup j s.entries ≡ some f
unfolding discard
evict-lookup zero s j f d h = unfold evict in h
evict-lookup (suc fuel) s j f d h = elim (evict-Round fuel s d) [
  | inl (room, e) ↦ rw e at h
  | inr (inl (empty, e)) ↦ rw e at h
  | inr (inr (k, x, found, least, e)) ↦
      lookup-before_remove k j f s.entries d
        (evict-lookup fuel (discard k x s) j f (remove-Distinct k s.entries d) (rw e at h))
]

-- An entry that the loop drops was used no later than any entry that it leaves.
pub evict-lru :
    (fuel : ℕ) (s : Snapshots) (i j : Text) (e f : SnapshotEntry)
    → Distinct s.entries
    → lookup i s.entries ≡ some e
    → lookup i (evict fuel s).entries ≡ none
    → lookup j (evict fuel s).entries ≡ some f
    → e.last_used ≤ f.last_used
unfolding discard
evict-lru zero s i j e f d hi gone hj = unfold evict in cc
evict-lru (suc fuel) s i j e f d hi gone hj = elim (evict-Round fuel s d) [
  | inl (room, q) ↦ absurd_some (rw q at gone)
  | inr (inl (empty, q)) ↦ absurd_some (rw q at gone)
  | inr (inr (k, x, found, least, q)) ↦ elim (Text-discrete k i) [
    | yes same ↦ dropped k x found least same (evict-lookup (suc fuel) s j f d hj)
    | no other ↦
        evict-lru fuel (discard k x s) i j e f (remove-Distinct k s.entries d)
          (lookup-remove_ne k i s.entries other ∙ hi) (rw q at gone) (rw q at hj)
  ]
]
  where
    absurd_some : lookup i s.entries ≡ none → e.last_used ≤ f.last_used
    absurd_some n = cc

    dropped :
        (k : Text) (x : SnapshotEntry)
        → lookup k s.entries ≡ some x
        → ((j : Text) (f : SnapshotEntry) → lookup j s.entries ≡ some f → x.last_used ≤ f.last_used)
        → k ≡ i
        → lookup j s.entries ≡ some f
        → e.last_used ≤ f.last_used
    dropped k x found least same hf = ground (arith, least j f hf)
