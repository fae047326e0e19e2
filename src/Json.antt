-- ===== src/Json.antt =====
-- What the sources use of `serde_json`: a document is a value, an object is a map from keys to
-- values.
use containerd_cloudhypervis.Common.{
  ℕ, ◌≡◌, ◌≢◌, refl, Option, none, some, List, [], ◌∷◌, Text, ite, Text-discrete, arith, All,
  Option-cases, inl, inr,
}

pub record JsonOps : Type 1 where
  pub Value : Type 0
  pub Fields : Type 0
  pub text : Text → Value
  pub number : ℕ → Value
  pub array : List Value → Value
  pub object : Fields → Value
  pub as_object : Value → Option Fields
  pub as_text : Value → Option Text
  pub empty : Fields
  pub get : Text → Fields → Option Value
  pub insert : Text → Value → Fields → Fields
  pub remove : Text → Fields → Fields

-- The documented behaviour of `as_object_mut` and of `Map`.
pub record JsonLaws (J : JsonOps) : Type 0 where
  pub as_object-object : (fs : J.Fields) → J.as_object (J.object fs) ≡ some fs
  pub get-insert :
      (k j : Text) (v : J.Value) (fs : J.Fields)
      → J.get j (J.insert k v fs) ≡ ite (Text-discrete k j) (some v) (J.get j fs)
  pub get-remove :
      (k j : Text) (fs : J.Fields)
      → J.get j (J.remove k fs) ≡ ite (Text-discrete k j) none (J.get j fs)

module _ (J : JsonOps) where
  unfoldable pub remove_each : List Text → J.Fields → J.Fields
  remove_each [] fs = fs
  remove_each (k ∷ ks) fs = remove_each ks (J.remove k fs)

  -- `as_object_mut` on a value.
  unfoldable pub on_object : (J.Fields → J.Fields) → J.Value → J.Value
  on_object f v = elim (J.as_object v) [ none ↦ v | some fs ↦ J.object (f fs) ]

  -- `pointer_mut("/key")` and `as_object_mut` on what is found.
  unfoldable pub on_member : Text → (J.Fields → J.Fields) → J.Fields → J.Fields
  unfolding on_object
  on_member k f fs = elim (J.get k fs) [ none ↦ fs | some v ↦ J.insert k (on_object f v) fs ]

  unfoldable pub fields : List (Text × J.Value) → J.Fields
  fields [] = J.empty
  fields ((k, v) ∷ rest) = J.insert k v (fields rest)

  module _ (L : JsonLaws J) where
    pub on_object-object :
        (f : J.Fields → J.Fields) (fs : J.Fields) → on_object f (J.object fs) ≡ J.object (f fs)
    unfolding on_object
    on_object-object f fs = rw (L.as_object-object fs, on_object) refl

    pub get-on_member :
        (k j : Text) (f : J.Fields → J.Fields) (fs : J.Fields)
        → J.get j (on_member k f fs)
          ≡ ite
              (Text-discrete k j)
              (elim (J.get j fs) [ none ↦ none | some v ↦ some (on_object f v) ])
              (J.get j fs)
    unfolding on_member
    get-on_member k j f fs = elim (Option-cases (J.get k fs)) [
      | inl e ↦ ground (arith, e)
      | inr (v, e) ↦ ground (arith, e, L.get-insert k j (on_object f v) fs)
    ]

    pub get-remove_each :
        (ks : List Text) (j : Text) (fs : J.Fields)
        → All (λ k. j ≢ k) ks
        → J.get j (remove_each ks fs) ≡ J.get j fs
    unfolding remove_each
    get-remove_each [] j fs h = refl
    get-remove_each (k ∷ ks) j fs h =
        ground (arith, get-remove_each ks j (J.remove k fs) h.1, L.get-remove k j fs)

    -- A key that is missing stays so, and those that are removed are missing.
    remove_each-none :
        (ks : List Text) (j : Text) (fs : J.Fields)
        → J.get j fs ≡ none
        → J.get j (remove_each ks fs) ≡ none
    unfolding remove_each
    remove_each-none [] j fs h = h
    remove_each-none (k ∷ ks) j fs h =
        remove_each-none ks j (J.remove k fs) (ground (arith, L.get-remove k j fs))

    pub remove_each-removed :
        (ks : List Text) (fs : J.Fields) → All (λ k. J.get k (remove_each ks fs) ≡ none) ks
    unfolding remove_each
    remove_each-removed [] fs = tt
    remove_each-removed (k ∷ ks) fs = (
      remove_each-none ks k (J.remove k fs) (ground (arith, L.get-remove k k fs)),
      remove_each-removed ks (J.remove k fs),
    )
