-- ===== src/Shadow/Trigger.antt =====
-- shadow.rs `trigger_shadow` and the tasks that it spawns. The table of running shadows is read under
-- its lock before the spawn and written under it afterwards, so other tasks may come in between.
use containerd_cloudhypervis.Common.{
  ℕ, suc, ◌-◌, ◌<◌, ◌≡◌, ◌≢◌, refl, Bool, ◌||◌, none, some, List, [], ◌∷◌, Text, lookup, insert,
  remove, is_some, if◌then◌else◌, arith, lookup-insert, lookup-remove_ne, Text-discrete, ite,
}

-- `active_shadows` with its keys only; `pending` are the triggers between the spawn and the insert
-- of the handle; `running` are the spawned tasks that have not removed their key yet.
pub record Tasks : Type 0 where
  pub active_shadows : List (Text × Unit {0})
  pub pending : List Text
  pub running : List Text

unfoldable pub drop_one : Text → List Text → List Text
unfolding Text-discrete
drop_one k [] = []
drop_one k (x ∷ xs) = ite (Text-discrete x k) xs (x ∷ drop_one k xs)

unfoldable pub occurs : Text → List Text → ℕ
unfolding Text-discrete
occurs k [] = 0
occurs k (x ∷ xs) = ite (Text-discrete x k) (suc (occurs k xs)) (occurs k xs)

unfoldable pub spawn_shadow : Text → Tasks → Tasks
spawn_shadow key s = record s { pending = key ∷ s.pending; running = key ∷ s.running }

unfoldable pub register_shadow : Text → Tasks → Tasks
register_shadow key s = record s {
  active_shadows = insert key tt s.active_shadows;
  pending = drop_one key s.pending;
}

-- The end of the spawned task.
unfoldable pub finish_shadow : Text → Tasks → Tasks
finish_shadow key s = record s {
  active_shadows = remove key s.active_shadows;
  running = drop_one key s.running;
}

-- `trigger_shadow` when nothing comes in between; the flag is the answer of `has_snapshot`.
unfoldable pub trigger_shadow : Bool → Text → Tasks → Tasks
unfolding spawn_shadow register_shadow
trigger_shadow found key s =
    if found || is_some (lookup key s.active_shadows)
    then s
    else register_shadow key (spawn_shadow key s)

-- The interleavings of triggers and tasks.
pub data Step (s : Tasks) : Tasks → Type 0 where
  spawns : (key : Text) → lookup key s.active_shadows ≡ none → Step s (spawn_shadow key s)
  registers : (key : Text) → 0 < occurs key s.pending → Step s (register_shadow key s)
  finishes : (key : Text) → 0 < occurs key s.running → Step s (finish_shadow key s)

pub data Reach (s : Tasks) : Tasks → Type 0 where
  here : Reach s s
  next : {t u : Tasks} → Reach s t → Step t u → Reach s u

pub occurs-drop_one_ne :
    (k j : Text) (xs : List Text) → k ≢ j → occurs j (drop_one k xs) ≡ occurs j xs
unfolding occurs drop_one
occurs-drop_one_ne k j [] n = refl
occurs-drop_one_ne k j (x ∷ xs) n = ground (arith, occurs-drop_one_ne k j xs n)

pub occurs-drop_one_self : (k : Text) (xs : List Text) → occurs k (drop_one k xs) ≡ occurs k xs - 1
unfolding occurs drop_one
occurs-drop_one_self k [] = omega arith
occurs-drop_one_self k (x ∷ xs) = ground (arith, occurs-drop_one_self k xs)

-- The key is in the table, and no task that could take it out runs or is about to be recorded.
pub record IsStuck (key : Text) (s : Tasks) : Type 0 where
  pub listed : lookup key s.active_shadows ≡ some tt
  pub not_pending : occurs key s.pending ≡ 0
  pub not_running : occurs key s.running ≡ 0

Step-IsStuck : (key : Text) {s t : Tasks} → Step s t → IsStuck key s → IsStuck key t
unfolding spawn_shadow register_shadow finish_shadow
Step-IsStuck key {s} (spawns j h) i = elim (Text-discrete j key) [
  | yes same ↦ absurd (ground arith)
  | no other ↦ unfold occurs in ground arith
]
Step-IsStuck key {s} (registers j h) i = elim (Text-discrete j key) [
  | yes same ↦ absurd (ground arith)
  | no other ↦
      ground
        (arith, lookup-insert j key tt s.active_shadows, occurs-drop_one_ne j key s.pending other)
]
Step-IsStuck key {s} (finishes j h) i = elim (Text-discrete j key) [
  | yes same ↦ absurd (ground arith)
  | no other ↦ ground (
    arith,
    lookup-remove_ne j key s.active_shadows other,
    occurs-drop_one_ne j key s.running other,
  )
]

Reach-IsStuck : (key : Text) {s t : Tasks} → Reach s t → IsStuck key s → IsStuck key t
Reach-IsStuck key here i = i
Reach-IsStuck key (next r st) i = Step-IsStuck key st (Reach-IsStuck key r i)

-- The task ends before its trigger records it.
late : Text → Tasks → Tasks
late key s = register_shadow key (finish_shadow key (spawn_shadow key s))

late-Reach : (key : Text) (s : Tasks) → lookup key s.active_shadows ≡ none → Reach s (late key s)
unfolding late
late-Reach key s h =
    next
      (next (next here (spawns key h)) (finishes key (unfold spawn_shadow occurs in ground arith)))
      (registers key (unfold spawn_shadow finish_shadow occurs in ground arith))

late-IsStuck :
    (key : Text) (s : Tasks)
    → lookup key s.active_shadows ≡ none
    → occurs key s.pending ≡ 0
    → occurs key s.running ≡ 0
    → IsStuck key (late key s)
unfolding late spawn_shadow register_shadow finish_shadow drop_one
late-IsStuck key s h p r = record {
  listed = ground (arith, lookup-insert key key tt (remove key s.active_shadows));
  not_pending = ground arith;
  not_running = ground arith;
}

-- A task that ends before its trigger has recorded it leaves its key in the table for good: from any
-- state that does not know the key, there is a run after which, whatever follows, the key is listed
-- and no shadow runs for it.
pub shadow_gets_stuck :
    (key : Text) (s : Tasks)
    → lookup key s.active_shadows ≡ none
    → occurs key s.pending ≡ 0
    → occurs key s.running ≡ 0
    → (t : Tasks) × Reach s t
      × ((u : Tasks)
          → Reach t u
          → (lookup key u.active_shadows ≡ some tt) × (occurs key u.running ≡ 0))
shadow_gets_stuck key s h p r = (
  late key s,
  late-Reach key s h,
  λ u reach.
      let i = Reach-IsStuck key reach (late-IsStuck key s h p r) in (i.listed, i.not_running),
)
