-- ===== src/Common/Texts.antt =====
-- Texts as lists of bytes, with the decimal form of a number as `format!` prints it.
use Prim.Native.Nat.{ℕ, zero, suc, ◌+◌, ◌-◌, ◌*◌, ◌/◌, ◌%◌, ◌<◌}
use Prim.Native.Char.{code}
use Prim.Native.String.{String}
use mathlib.Core.Path.{◌≡◌, refl, sym, ap, ◌∙◌}
use mathlib.Core.Bool.{Bool, true, false}
use mathlib.Core.List.{append-nil, List, [], ◌∷◌, ◌++◌}
use mathlib.Core.List.{append_assoc}
use mathlib.Core.Logic.{inl, inr}
use native.Mathlib.Omega.{arith}
use native.Mathlib.Decide.{ℕ_discrete}
use containerd_cloudhypervis.Common.Tests.{ltb, ◌==◌, Bool-cases, if◌then◌else◌}

abbrev pub Text : Type 0
Text = List ℕ

-- The bytes of an ASCII literal.
abbrev pub codes : String → Text
codes String.[] = []
codes (String.◌∷◌ c s) = code c ∷ codes s

unfoldable pub Text-discrete : Discrete Text
unfolding ℕ_discrete
Text-discrete = hlevel ℕ_discrete

-- `{n}` in a format string. The fuel `suc n` is enough: every round but the last divides by ten.
unfoldable pub show_from : ℕ → ℕ → Text
show_from zero n = []
show_from (suc f) n =
    let front = show_from f (n / 10) in
    if ltb n 10 then (b'0' + n) ∷ [] else front ++ (b'0' + n % 10) ∷ []

unfoldable pub show_dec : ℕ → Text
unfolding show_from
show_dec n = show_from (suc n) n

-- The number that a text of digits stands for.
read_from : ℕ → Text → ℕ
read_from acc [] = acc
read_from acc (c ∷ cs) = read_from (acc * 10 + (c - b'0')) cs

read_from-append :
    (acc c : ℕ) (xs : Text) → read_from acc (xs ++ c ∷ []) ≡ read_from acc xs * 10 + (c - b'0')
unfolding read_from
read_from-append acc c [] = refl
read_from-append acc c (x ∷ xs) = read_from-append (acc * 10 + (x - b'0')) c xs

read_from-show_from : (f n : ℕ) → n < f → read_from 0 (show_from f n) ≡ n
unfolding show_from read_from
read_from-show_from zero n h = absurd (omega arith)
read_from-show_from (suc f) n h = ground (
  arith,
  read_from-append 0 (b'0' + n % 10) (show_from f (n / 10)),
  read_from-show_from f (n / 10),
)

-- Two numbers that print alike are one number.
pub show_dec-injective : (m n : ℕ) → show_dec m ≡ show_dec n → m ≡ n
unfolding show_dec
show_dec-injective m n e =
    sym (read_from-show_from (suc m) m (omega arith))
    ∙ ap (read_from 0) e
    ∙ read_from-show_from (suc n) n (omega arith)

pub append-left_cancel : (xs ys zs : Text) → xs ++ ys ≡ xs ++ zs → ys ≡ zs
append-left_cancel [] ys zs e = e
append-left_cancel (x ∷ xs) ys zs e = append-left_cancel xs ys zs (cc)

with_slash : Text → Text
with_slash [] = []
with_slash (c ∷ []) = if c == b'/' then c ∷ [] else c ∷ b'/' ∷ []
with_slash (c ∷ d ∷ cs) = c ∷ with_slash (d ∷ cs)

-- `PathBuf::join`: an absolute second part takes the place of the first.
unfoldable pub join : Text → Text → Text
unfolding with_slash
join dir [] = with_slash dir
join dir (c ∷ cs) = if c == b'/' then c ∷ cs else with_slash dir ++ c ∷ cs

unfoldable pub starts_with : Text → Text → Bool
starts_with [] s = true
starts_with (p ∷ ps) [] = false
starts_with (p ∷ ps) (c ∷ cs) = if p == c then starts_with ps cs else false

with_slash_below : (dir : Text) → (zs : Text) × (with_slash dir ≡ dir ++ zs)
unfolding with_slash
with_slash_below [] = ([], refl)
with_slash_below (c ∷ []) = elim (Bool-cases (c == b'/')) [
  | inl e ↦ ([], rw e refl)
  | inr e ↦ (b'/' ∷ [], rw e refl)
]
with_slash_below (c ∷ d ∷ cs) = let (zs, e) = with_slash_below (d ∷ cs) in (zs, ap (λ x. c ∷ x) e)

-- A relative path stays below the directory that it is joined to.
pub join_below :
    (dir path : Text)
    → starts_with (codes "/") path ≡ false
    → (zs : Text) × (join dir path ≡ dir ++ zs)
unfolding join starts_with
join_below dir [] h = with_slash_below dir
join_below dir (c ∷ cs) h =
    let (zs, e) = with_slash_below dir in
    (zs ++ c ∷ cs, ground (arith, ap (λ x. x ++ c ∷ cs) e, append_assoc dir zs (c ∷ cs)))

join_relative :
    (dir path : Text)
    → starts_with (codes "/") path ≡ false
    → join dir path ≡ with_slash dir ++ path
unfolding join starts_with
join_relative dir [] h = sym (append-nil (with_slash dir))
join_relative dir (c ∷ cs) h = ground arith

-- Relative paths that are joined to one directory give different paths.
pub join-injective :
    (dir a b : Text)
    → starts_with (codes "/") a ≡ false
    → starts_with (codes "/") b ≡ false
    → join dir a ≡ join dir b
    → a ≡ b
join-injective dir a b h k e =
    append-left_cancel (with_slash dir) a b
      (sym (join_relative dir a h) ∙ e ∙ join_relative dir b k)

show_test : show_dec 1207 ≡ codes "1207"
unfolding show_dec
show_test = refl

discrete_test : show_dec 12 ≡ codes "12"
unfolding show_dec
discrete_test = refl
