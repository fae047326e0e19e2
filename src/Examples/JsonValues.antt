-- ===== src/Examples/JsonValues.antt =====
-- Documents for the runs: values with objects that are lists of fields.
use containerd_cloudhypervis.Common.{
  ℕ, ◌≡◌, refl, Bool, Option, none, some, List, [], ◌∷◌, Text, ite, Text-discrete, arith,
}
use containerd_cloudhypervis.Json.{JsonOps, JsonLaws}

mutual
  pub data Json : Type 0 where
    null : Json
    boolean : Bool → Json
    number : ℕ → Json
    text : Text → Json
    array : Items → Json
    object : Fields → Json

  pub data Items : Type 0 where
    last : Items
    item : Json → Items → Items

  pub data Fields : Type 0 where
    end : Fields
    field : Text → Json → Fields → Fields

unfoldable pub get : Text → Fields → Option Json
unfolding Text-discrete
get k end = none
get k (field j v fs) = ite (Text-discrete j k) (some v) (get k fs)

unfoldable pub insert : Text → Json → Fields → Fields
unfolding Text-discrete
insert k v end = field k v end
insert k v (field j w fs) = ite (Text-discrete j k) (field k v fs) (field j w (insert k v fs))

unfoldable pub remove : Text → Fields → Fields
unfolding Text-discrete
remove k end = end
remove k (field j w fs) = let rest = remove k fs in ite (Text-discrete j k) rest (field j w rest)

unfoldable pub items : List Json → Items
items [] = last
items (v ∷ vs) = item v (items vs)

get-insert :
    (k j : Text) (v : Json) (fs : Fields)
    → get j (insert k v fs) ≡ ite (Text-discrete k j) (some v) (get j fs)
unfolding get insert
get-insert k j v end = refl
get-insert k j v (field i w fs) = ground (arith, get-insert k j v fs)

get-remove :
    (k j : Text) (fs : Fields) → get j (remove k fs) ≡ ite (Text-discrete k j) none (get j fs)
unfolding get remove
get-remove k j end = ground arith
get-remove k j (field i w fs) = ground (arith, get-remove k j fs)

unfoldable pub as_object : Json → Option Fields
as_object null = none
as_object (boolean b) = none
as_object (number n) = none
as_object (text t) = none
as_object (array xs) = none
as_object (object fs) = some fs

unfoldable pub as_text : Json → Option Text
as_text null = none
as_text (boolean b) = none
as_text (number n) = none
as_text (text t) = some t
as_text (array xs) = none
as_text (object fs) = none

abbrev pub values : JsonOps
values = record {
  Value = Json;
  Fields = Fields;
  text = text;
  number = number;
  array = λ vs. array (items vs);
  object = object;
  as_object = as_object;
  as_text = as_text;
  empty = end;
  get = get;
  insert = insert;
  remove = remove;
}

pub values-JsonLaws : JsonLaws values
unfolding as_object
values-JsonLaws = record {
  as_object-object = λ fs. refl;
  get-insert = get-insert;
  get-remove = get-remove;
}
