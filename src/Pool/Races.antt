-- ===== src/Pool/Races.antt =====
-- pool.rs: the two places where the pool reads shared state, lets go of it, and acts on what it read.
-- `restore_one` reads the counter for the VM's name before it takes a CID from it, and `replenish_one`
-- checks the number of idle VMs before it restores one more.
use containerd_cloudhypervis.Common.{
  ℕ, zero, suc, ◌+◌, ◌-◌, ◌^◌, ◌≤◌, ◌<◌, ◌≡◌, refl, true, List, [], ◌∷◌, ◌++◌, Text, arith, length,
  leb, if◌then◌else◌, some, subst,
}
use containerd_cloudhypervis.Pool.State.{Pool, pool_id, u64}
use containerd_cloudhypervis.Pool.Restore.{Trial, restore_one}
use containerd_cloudhypervis.Pool.Ops.{push_restored}

-- `named` are the values that restores under way have read for their names; `restored` are the names
-- and CIDs of the VMs, newest first.
pub record Naming : Type 0 where
  pub next_cid : ℕ
  pub named : List ℕ
  pub restored : List (Text × ℕ)

unfoldable pub read_name : Naming → Naming
read_name s = record s { named = s.next_cid ∷ s.named }

-- A restore that has read `n` takes its CID; `others` are the readings of the other restores.
unfoldable pub take_cid : ℕ → ℕ → List ℕ → Naming → Naming
take_cid pid n others s = record {
  next_cid = u64 (s.next_cid + 1);
  named = others;
  restored = (pool_id pid n, s.next_cid) ∷ s.restored;
}

pub data NameStep (pid : ℕ) (s : Naming) : Naming → Type 0 where
  reads : NameStep pid s (read_name s)
  takes :
      (n : ℕ) (front back : List ℕ)
      → s.named ≡ front ++ n ∷ back
      → NameStep pid s (take_cid pid n (front ++ back) s)

pub data NameReach (pid : ℕ) (s : Naming) : Naming → Type 0 where
  here : NameReach pid s s
  next : {t u : Naming} → NameReach pid s t → NameStep pid t u → NameReach pid s u

-- Two restores that overlap can get one name with two CIDs: from any state in which the CID
-- counter has not run out there is such a run, in which both read the counter before either takes
-- its CID.
pub names_collide :
    (pid : ℕ) (s : Naming)
    → s.next_cid + 2 < 2 ^ 64
    → (t : Naming) × NameReach pid s t
      × (t.restored
          ≡ (pool_id pid s.next_cid, s.next_cid + 1)
            ∷ (pool_id pid s.next_cid, s.next_cid)
            ∷ s.restored)
unfolding read_name take_cid
names_collide pid s h =
    let both = read_name (read_name s) in
    let one = take_cid pid s.next_cid (s.next_cid ∷ s.named) both in
    let two = take_cid pid s.next_cid s.named one in
    (
      two,
      next (next (next (next here reads) reads) (takes s.next_cid [] (s.next_cid ∷ s.named) refl))
          (takes s.next_cid [] s.named refl),
      ground arith,
    )

-- `checked` counts the replenishments that found room and have not pushed their VM yet.
pub record Filling : Type 0 where
  pub pool : Pool
  pub checked : ℕ

-- The two halves of `replenish_one`.
unfoldable pub check_room : Filling → Filling
check_room s =
    if leb s.pool.pool_size (length s.pool.ready) then s else record s { checked = suc s.checked }

unfoldable pub push_one : Trial → Filling → Filling
push_one t s = record { pool = push_restored (restore_one t s.pool); checked = s.checked - 1 }

pub data FillStep (s : Filling) : Filling → Type 0 where
  checks : FillStep s (check_room s)
  pushes : (t : Trial) → 0 < s.checked → FillStep s (push_one t s)

pub data FillReach (s : Filling) : Filling → Type 0 where
  here : FillReach s s
  next : {t u : Filling} → FillReach s t → FillStep t u → FillReach s u

check_all :
    (n : ℕ) (s : Filling)
    → length s.pool.ready < s.pool.pool_size
    → FillReach s (record s { checked = s.checked + n })
unfolding check_room
check_all zero s h =
    subst (λ (m : ℕ). FillReach s (record s { checked = m })) (omega arith) FillReach.here
check_all (suc n) s h =
    let t = record s { checked = s.checked + n } in
    let found : check_room t ≡ record s { checked = s.checked + suc n } = ground arith in
    subst (λ u. FillReach s u) found (FillReach.next (check_all n s h) checks)

-- Every step of the restore succeeds.
abbrev fine : Trial
fine = record {
  dir_made = true;
  linked = true;
  spawned = some 1;
  pid_written = true;
  api_ready = true;
  restored = true;
  resumed = true;
  agent_up = true;
}

FillReach-join : {s t u : Filling} → FillReach s t → FillReach t u → FillReach s u
FillReach-join r FillReach.here = r
FillReach-join r (FillReach.next q st) = FillReach.next (FillReach-join r q) st

push_one-fine :
    (s : Filling)
    → let t = push_one fine s in
      (length t.pool.ready ≡ length s.pool.ready + 1) × (t.checked ≡ s.checked - 1)
unfolding push_one push_restored restore_one
push_one-fine s = ground arith

push_all :
    (n : ℕ) (s : Filling)
    → n ≤ s.checked
    → (t : Filling) × FillReach s t × (length t.pool.ready ≡ length s.pool.ready + n)
push_all zero s h = (s, FillReach.here, omega arith)
push_all (suc n) s h =
    let one = push_one-fine s in
    let (t, reach, count) = push_all n (push_one fine s) (omega (arith, one.1)) in
    (
      t,
      FillReach-join (FillReach.next FillReach.here (pushes fine (omega arith))) reach,
      omega (arith, count, one.0),
    )

-- Overlapping replenishments fill the pool past its size: as long as there is room for one VM, any
-- number of them may find that room before the first one pushes, and each then pushes a VM.
pub pool_overfills :
    (n : ℕ) (s : Filling)
    → length s.pool.ready < s.pool.pool_size
    → (t : Filling) × FillReach s t × (length t.pool.ready ≡ length s.pool.ready + n)
pool_overfills n s h =
    let (t, reach, count) = push_all n (record s { checked = s.checked + n }) (omega arith) in
    (t, FillReach-join (check_all n s h) reach, count)
