-- ===== src/Common/Dicts.antt =====
-- Maps keyed by texts, for the `HashMap<String, V>`s of the source: association lists in which
-- an insert replaces the entry of its key. The order of the list stands for the order in which the
-- map iterates.
use Prim.Native.Nat.{ℕ, ◌+◌}
use mathlib.Core.Path.{◌≡◌, refl}
use mathlib.Core.Logic.{◌≢◌, ite}
use mathlib.Core.Option.{Option, none, some}
use mathlib.Core.List.{List, [], ◌∷◌}
use native.Mathlib.Omega.{arith}
use containerd_cloudhypervis.Common.Tests.{is_some, if◌then◌else◌}
use containerd_cloudhypervis.Common.Lists.{length}
use containerd_cloudhypervis.Common.Texts.{Text, Text-discrete, codes}

module _ {ℓ} {V : Type ℓ} where
  unfoldable pub lookup : Text → List (Text × V) → Option V
  unfolding Text-discrete
  lookup k [] = none
  lookup k ((j, v) ∷ m) = ite (Text-discrete j k) (some v) (lookup k m)

  unfoldable pub insert : Text → V → List (Text × V) → List (Text × V)
  unfolding Text-discrete
  insert k v [] = (k, v) ∷ []
  insert k v ((j, w) ∷ m) = ite (Text-discrete j k) ((k, v) ∷ m) ((j, w) ∷ insert k v m)

  unfoldable pub remove : Text → List (Text × V) → List (Text × V)
  unfolding Text-discrete
  remove k [] = []
  remove k ((j, w) ∷ m) = ite (Text-discrete j k) m ((j, w) ∷ remove k m)

  -- `get_mut` followed by an assignment: nothing happens where the key is missing.
  unfoldable pub update : Text → (V → V) → List (Text × V) → List (Text × V)
  unfolding Text-discrete
  update k f [] = []
  update k f ((j, w) ∷ m) = ite (Text-discrete j k) ((j, f w) ∷ m) ((j, w) ∷ update k f m)

  -- No key stands twice.
  abbrev pub Distinct : List (Text × V) → Type ℓ
  Distinct [] = Unit
  Distinct ((k, v) ∷ m) = (lookup k m ≡ none) × Distinct m

  pub lookup-insert :
      (k j : Text) (v : V) (m : List (Text × V))
      → lookup j (insert k v m) ≡ ite (Text-discrete k j) (some v) (lookup j m)
  unfolding lookup insert
  lookup-insert k j v [] = refl
  lookup-insert k j v ((i, w) ∷ m) = ground (arith, lookup-insert k j v m)

  pub lookup-update :
      (k j : Text) (f : V → V) (m : List (Text × V))
      → lookup j (update k f m)
        ≡ ite
            (Text-discrete k j)
            (elim (lookup j m) [ none ↦ none | some w ↦ some (f w) ])
            (lookup j m)
  unfolding lookup update
  lookup-update k j f [] = ground arith
  lookup-update k j f ((i, w) ∷ m) = ground (arith, lookup-update k j f m)

  pub lookup-remove_ne :
      (k j : Text) (m : List (Text × V)) → k ≢ j → lookup j (remove k m) ≡ lookup j m
  unfolding lookup remove
  lookup-remove_ne k j [] h = refl
  lookup-remove_ne k j ((i, w) ∷ m) h = ground (arith, lookup-remove_ne k j m)

  pub lookup-remove_self :
      (k : Text) (m : List (Text × V)) → Distinct m → lookup k (remove k m) ≡ none
  unfolding lookup remove
  lookup-remove_self k [] h = refl
  lookup-remove_self k ((i, w) ∷ m) h = ground (arith, lookup-remove_self k m h.1)

  pub lookup-remove-none :
      (k j : Text) (m : List (Text × V)) → lookup j m ≡ none → lookup j (remove k m) ≡ none
  unfolding lookup remove
  lookup-remove-none k j [] h = refl
  lookup-remove-none k j ((i, w) ∷ m) h = ground (arith, lookup-remove-none k j m)

  pub insert-Distinct :
      (k : Text) (v : V) (m : List (Text × V)) → Distinct m → Distinct (insert k v m)
  unfolding lookup insert
  insert-Distinct k v [] h = (refl, tt)
  insert-Distinct k v ((i, w) ∷ m) h =
      ground (arith, insert-Distinct k v m h.1, lookup-insert k i v m)

  pub update-Distinct :
      (k : Text) (f : V → V) (m : List (Text × V)) → Distinct m → Distinct (update k f m)
  unfolding lookup update
  update-Distinct k f [] h = tt
  update-Distinct k f ((i, w) ∷ m) h =
      ground (arith, update-Distinct k f m h.1, lookup-update k i f m)

  pub remove-Distinct : (k : Text) (m : List (Text × V)) → Distinct m → Distinct (remove k m)
  unfolding lookup remove
  remove-Distinct k [] h = tt
  remove-Distinct k ((i, w) ∷ m) h =
      ground (arith, remove-Distinct k m h.1, lookup-remove-none k i m)

  pub length-insert :
      (k : Text) (v : V) (m : List (Text × V))
      → length (insert k v m) ≡ (if is_some (lookup k m) then length m else length m + 1)
  unfolding lookup insert
  length-insert k v [] = ground arith
  length-insert k v ((i, w) ∷ m) = ground (arith, length-insert k v m)

  pub length-remove :
      (k : Text) (m : List (Text × V))
      → length (remove k m) + (if is_some (lookup k m) then 1 else 0) ≡ length m
  unfolding lookup remove
  length-remove k [] = ground arith
  length-remove k ((i, w) ∷ m) = ground (arith, length-remove k m)

dict_test : lookup {V = ℕ} (codes "b") (insert (codes "a") 1 (insert (codes "b") 2 [])) ≡ some 2
unfolding lookup insert
dict_test = refl
