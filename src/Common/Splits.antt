-- ===== src/Common/Splits.antt =====
-- `split` and `join` of texts at a byte.
use Prim.Native.Nat.{ℕ}
use mathlib.Core.Path.{◌≡◌, refl, ap, ◌∙◌}
use mathlib.Core.Logic.{◌≢◌}
use mathlib.Core.List.{List, [], ◌∷◌, ◌++◌}
use native.Mathlib.Omega.{arith}
use containerd_cloudhypervis.Common.Tests.{◌==◌, if◌then◌else◌}
use containerd_cloudhypervis.Common.Lists.{All}
use containerd_cloudhypervis.Common.Texts.{Text, codes}

-- A first part with a byte more.
longer : ℕ → List Text → List Text
longer c [] = (c ∷ []) ∷ []
longer c (part ∷ parts) = (c ∷ part) ∷ parts

unfoldable pub split : ℕ → Text → List Text
unfolding longer
split d [] = [] ∷ []
split d (c ∷ cs) = let parts = split d cs in if c == d then [] ∷ parts else longer c parts

unfoldable pub join_with : ℕ → List Text → Text
join_with d [] = []
join_with d (part ∷ []) = part
join_with d (part ∷ next ∷ parts) = part ++ d ∷ join_with d (next ∷ parts)

-- A text without the byte.
abbrev pub Lacks : ℕ → Text → Type 0
Lacks d = All (λ c. c ≢ d)

pub split-clean : (d : ℕ) (part : Text) → Lacks d part → split d part ≡ part ∷ []
unfolding split
split-clean d [] h = refl
split-clean d (c ∷ cs) h = ground (arith, split-clean d cs h.1)

pub split-append :
    (d : ℕ) (part rest : Text) → Lacks d part → split d (part ++ d ∷ rest) ≡ part ∷ split d rest
unfolding split
split-append d [] rest h = ground arith
split-append d (c ∷ cs) rest h = ground (arith, split-append d cs rest h.1)

-- Parts without the byte are what a split finds between it.
pub split-join_with :
    (d : ℕ) (part : Text) (parts : List Text)
    → All (Lacks d) (part ∷ parts)
    → split d (join_with d (part ∷ parts)) ≡ part ∷ parts
unfolding join_with
split-join_with d part [] h = split-clean d part h.0
split-join_with d part (next ∷ parts) h =
    split-append d part (join_with d (next ∷ parts)) h.0
    ∙ ap (λ r. part ∷ r) (split-join_with d next parts h.1)

split_test : split b':' (codes "a:b:") ≡ codes "a" ∷ codes "b" ∷ [] ∷ []
unfolding split
split_test = refl
