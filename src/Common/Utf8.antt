-- ===== src/Common/Utf8.antt =====
-- `String::from_utf8_lossy`: bytes that are no UTF-8 give U+FFFD, once for each maximal part of a
-- sequence.
use Prim.Native.Nat.{ℕ, ◌<◌}
use mathlib.Core.Path.{◌≡◌, refl}
use mathlib.Core.Bool.{◌&&◌}
use mathlib.Core.Option.{Option, none, some}
use mathlib.Core.List.{List, [], ◌∷◌, ◌++◌}
use native.Mathlib.Omega.{arith}
use containerd_cloudhypervis.Common.Tests.{ltb, leb, ◌==◌, if◌then◌else◌}
use containerd_cloudhypervis.Common.Lists.{All}
use containerd_cloudhypervis.Common.Texts.{Text}

-- The ranges of the bytes that must follow a first byte.
followers : ℕ → Option (List (ℕ × ℕ))
followers b =
    let cont : ℕ × ℕ = (0x80, 0xBF) in
    if ltb b 0x80
    then some []
    else if leb 0xC2 b && leb b 0xDF
    then some (cont ∷ [])
    else if b == 0xE0
    then some ((0xA0, 0xBF) ∷ cont ∷ [])
    else if b == 0xED
    then some ((0x80, 0x9F) ∷ cont ∷ [])
    else if leb 0xE1 b && leb b 0xEF
    then some (cont ∷ cont ∷ [])
    else if b == 0xF0
    then some ((0x90, 0xBF) ∷ cont ∷ cont ∷ [])
    else if leb 0xF1 b && leb b 0xF3
    then some (cont ∷ cont ∷ cont ∷ [])
    else if b == 0xF4
    then some ((0x80, 0x8F) ∷ cont ∷ cont ∷ [])
    else none

abbrev replacement : Text
replacement = 0xEF ∷ 0xBF ∷ 0xBD ∷ []

-- What is put out after a byte, the bytes of the sequence that it leaves open, and the ranges of
-- those that the sequence still wants.
abbrev Step : Type 0
Step = Text × Text × List (ℕ × ℕ)

start : ℕ → Option (List (ℕ × ℕ)) → Step
start b none = (replacement, [], [])
start b (some []) = (b ∷ [], [], [])
start b (some (r ∷ rs)) = ([], b ∷ [], r ∷ rs)

closed : Text → List (ℕ × ℕ) → Step
closed seen [] = (seen, [], [])
closed seen (r ∷ rs) = ([], seen, r ∷ rs)

broken : Step → Step
broken (out, seen, rs) = (replacement ++ out, seen, rs)

next : Text → List (ℕ × ℕ) → ℕ → Step
unfolding followers start closed broken
next seen [] b = start b (followers b)
next seen ((lo, hi) ∷ rs) b =
    if leb lo b && leb b hi then closed (seen ++ b ∷ []) rs else broken (start b (followers b))

decode : Text → List (ℕ × ℕ) → Text → Text
unfolding next
decode seen [] [] = []
decode seen (r ∷ rs) [] = replacement
decode seen rs (b ∷ bs) = let (out, seen', rs') = next seen rs b in out ++ decode seen' rs' bs

unfoldable pub lossy : Text → Text
unfolding decode
lossy bs = decode [] [] bs

pub lossy_ascii : (bs : Text) → All (λ b. b < 0x80) bs → lossy bs ≡ bs
unfolding lossy
lossy_ascii [] h = refl
lossy_ascii (b ∷ bs) h = ground (arith, lossy_ascii bs h.1)

lossy_test :
    lossy (0xC3 ∷ 0xA9 ∷ 0xE2 ∷ 0x82 ∷ 0x41 ∷ 0xFF ∷ [])
    ≡ 0xC3 ∷ 0xA9 ∷ 0xEF ∷ 0xBF ∷ 0xBD ∷ 0x41 ∷ 0xEF ∷ 0xBF ∷ 0xBD ∷ []
unfolding lossy
lossy_test = refl
