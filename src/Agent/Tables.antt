-- ===== src/Agent/Tables.antt =====
-- Lemmas on the tables of the container manager.
use containerd_cloudhypervis.Common.{
  ◌≡◌, ◌≢◌, sym, ◌∙◌, subst, true, none, some, List, Text, lookup, insert, update, remove,
  lookup-update, lookup-insert, lookup-remove_ne, lookup-remove_self, arith, Option-cases,
  Text-discrete, Distinct, insert-Distinct, remove-Distinct, is_some, ◌⊎◌, inl, inr,
}
use containerd_cloudhypervis.Agent.Manager.{rename}

-- The binding of a key that an update reaches, seen from the new table.
pub update-some {ℓ} :
    {V : Type ℓ} (k j : Text) (f : V → V) (m : List (Text × V)) (v : V)
    → lookup j (update k f m) ≡ some v
    → (w : V) × (lookup j m ≡ some w) × ((k ≡ j → v ≡ f w) × (k ≢ j → v ≡ w))
update-some k j f m v h = elim (Option-cases (lookup j m)) [
  | inl e ↦ absurd (ground (arith, lookup-update k j f m))
  | inr (w, e) ↦ (
    w,
    e,
    ((λ q. ground (arith, lookup-update k j f m)), (λ q. ground (arith, lookup-update k j f m))),
  )
]

pub is_some-insert {ℓ} :
    {V : Type ℓ} (k j : Text) (v : V) (m : List (Text × V))
    → is_some (lookup j m) ≡ true
    → is_some (lookup j (insert k v m)) ≡ true
is_some-insert k j v m h = ground (arith, lookup-insert k j v m)

pub is_some-insert_self {ℓ} :
    {V : Type ℓ} (k j : Text) (v : V) (m : List (Text × V))
    → k ≡ j
    → is_some (lookup j (insert k v m)) ≡ true
is_some-insert_self k j v m h = ground (arith, lookup-insert k j v m)

pub is_some-update {ℓ} :
    {V : Type ℓ} (k j : Text) (f : V → V) (m : List (Text × V))
    → is_some (lookup j m) ≡ true
    → is_some (lookup j (update k f m)) ≡ true
is_some-update k j f m h = ground (arith, lookup-update k j f m)

pub rename-none {ℓ} :
    {V : Type ℓ} (old new : Text) (m : List (Text × V)) → lookup old m ≡ none → rename old new m ≡ m
unfolding rename
rename-none old new m e = rw (e, rename)

pub rename-some {ℓ} :
    {V : Type ℓ} (old new : Text) (v : V) (m : List (Text × V))
    → lookup old m ≡ some v
    → rename old new m ≡ insert new v (remove old m)
unfolding rename
rename-some old new v m e = rw (e, rename)

pub is_some-rename {ℓ} :
    {V : Type ℓ} (old new j : Text) (m : List (Text × V))
    → old ≢ j
    → is_some (lookup j m) ≡ true
    → is_some (lookup j (rename old new m)) ≡ true
is_some-rename old new j m n h = elim (Option-cases (lookup old m)) [
  | inl e ↦ rw (rename-none old new m e) h
  | inr (v, e) ↦
      rw (rename-some old new v m e)
        (is_some-insert new j v (remove old m) (rw (lookup-remove_ne old j m n) h))
]

-- A renamed entry is found under its new key, and not under the old one.
pub lookup-rename {ℓ} :
    {V : Type ℓ} (old new : Text) (v : V) (m : List (Text × V))
    → Distinct m
    → lookup old m ≡ some v
    → (lookup new (rename old new m) ≡ some v) × (old ≢ new → lookup old (rename old new m) ≡ none)
lookup-rename old new v m d e = rw (rename-some old new v m e) (
  ground (arith, lookup-insert new new v (remove old m)),
  λ n. ground (arith, lookup-insert new old v (remove old m), lookup-remove_self old m d),
)

pub rename-Distinct {ℓ} :
    {V : Type ℓ} (old new : Text) (m : List (Text × V)) → Distinct m → Distinct (rename old new m)
rename-Distinct old new m d = elim (Option-cases (lookup old m)) [
  | inl e ↦ subst Distinct (sym (rename-none old new m e)) d
  | inr (v, e) ↦
      subst Distinct (sym (rename-some old new v m e))
        (insert-Distinct new v (remove old m) (remove-Distinct old m d))
]

pub remove-some {ℓ} :
    {V : Type ℓ} (k j : Text) (v : V) (m : List (Text × V))
    → Distinct m
    → lookup j (remove k m) ≡ some v
    → (k ≢ j) × (lookup j m ≡ some v)
remove-some k j v m d h = elim (Text-discrete k j) [
  | yes same ↦ absurd (ground (arith, lookup-remove_self k m d))
  | no other ↦ (other, sym (lookup-remove_ne k j m other) ∙ h)
]

pub insert-some {ℓ} :
    {V : Type ℓ} (k j : Text) (v w : V) (m : List (Text × V))
    → lookup j (insert k v m) ≡ some w
    → ((k ≡ j) × (v ≡ w)) ⊎ ((k ≢ j) × (lookup j m ≡ some w))
insert-some k j v w m h = elim (Text-discrete k j) [
  | yes same ↦ inl (same, ground (arith, lookup-insert k j v m))
  | no other ↦ inr (other, ground (arith, lookup-insert k j v m))
]
