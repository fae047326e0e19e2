-- ===== src/Shadow/Cmdline.antt =====
-- shadow.rs `strip_kernel_ip`: the kernel command line of a snapshot loses its `ip=` arguments. The
-- text is ASCII, as a command line is.
use containerd_cloudhypervis.Common.{
  starts_with, ℕ, ◌≡◌, ◌≢◌, refl, sym, ap, ◌∙◌, Bool, false, ◌||◌, List, [], ◌∷◌, ◌++◌, Text, codes,
  if◌then◌else◌, ◌==◌, arith, All, Bool-cases, inl, inr,
}
use mathlib.Core.List.{append-nil, append_assoc}

-- `char::is_whitespace` on ASCII.
unfoldable pub is_whitespace : ℕ → Bool
is_whitespace c = c == 32 || c == 9 || c == 10 || c == 11 || c == 12 || c == 13

-- One more character in front of a list of words; the flag says that the first word is still open.
push_word : Text → List Text → List Text
push_word [] ws = ws
push_word (c ∷ cs) ws = (c ∷ cs) ∷ ws

-- `split_whitespace`, with the word read so far in `word`.
split_from : Text → Text → List Text
unfolding push_word is_whitespace
split_from word [] = push_word word []
split_from word (c ∷ cs) =
    let next = split_from (word ++ c ∷ []) cs in
    let done = push_word word (split_from [] cs) in if is_whitespace c then done else next

unfoldable pub split_whitespace : Text → List Text
unfolding split_from
split_whitespace s = split_from [] s

-- `.filter(|part| !part.starts_with("ip="))`
unfoldable pub drop_ip : List Text → List Text
unfolding starts_with
drop_ip [] = []
drop_ip (w ∷ ws) = let rest = drop_ip ws in if starts_with (codes "ip=") w then rest else w ∷ rest

-- `.join(" ")`
unfoldable pub join_words : List Text → Text
join_words [] = []
join_words (w ∷ []) = w
join_words (w ∷ v ∷ ws) = w ++ 32 ∷ join_words (v ∷ ws)

unfoldable pub strip_ip : Text → Text
unfolding split_whitespace drop_ip join_words
strip_ip s = join_words (drop_ip (split_whitespace s))

-- A word as `split_whitespace` gives it.
abbrev IsWord : Text → Type 0
IsWord w = (w ≢ []) × All (λ c. is_whitespace c ≡ false) w

All-snoc :
    (c : ℕ) (w : Text)
    → All (λ d. is_whitespace d ≡ false) w
    → is_whitespace c ≡ false
    → All (λ d. is_whitespace d ≡ false) (w ++ c ∷ [])
All-snoc c [] a h = (h, tt)
All-snoc c (d ∷ w) a h = (a.0, All-snoc c w a.1 h)

push_word-All :
    (w : Text) (ws : List Text)
    → All (λ c. is_whitespace c ≡ false) w
    → All IsWord ws
    → All IsWord (push_word w ws)
unfolding push_word
push_word-All [] ws a b = b
push_word-All (c ∷ cs) ws a b = (((λ e. cc), a), b)

split_from-All : (w s : Text) → All (λ c. is_whitespace c ≡ false) w → All IsWord (split_from w s)
unfolding split_from
split_from-All w [] a = push_word-All w [] a tt
split_from-All w (c ∷ cs) a = elim (Bool-cases (is_whitespace c)) [
  | inl t ↦ rw (t, split_from) (push_word-All w _ a (split_from-All [] cs tt))
  | inr f ↦ rw (f, split_from) (split_from-All (w ++ c ∷ []) cs (All-snoc c w a f))
]

drop_ip-All : (ws : List Text) → All IsWord ws → All IsWord (drop_ip ws)
unfolding drop_ip
drop_ip-All [] a = tt
drop_ip-All (w ∷ ws) a = ground (arith, drop_ip-All ws a.1)

-- A word at the front of a text, up to a blank or the end.
split_from-word :
    (v w s : Text)
    → All (λ c. is_whitespace c ≡ false) w
    → split_from v (w ++ s) ≡ split_from (v ++ w) s
unfolding split_from
split_from-word v [] s a = rw append-nil
split_from-word v (c ∷ w) s a =
    rw (a.0, split_from)
      (split_from-word (v ++ c ∷ []) w s a.1 ∙ ap (λ x. split_from x s) (append_assoc v (c ∷ []) w))

split_from-space : (w s : Text) → w ≢ [] → split_from w (32 ∷ s) ≡ w ∷ split_from [] s
unfolding split_from
split_from-space [] s h = absurd (h refl)
split_from-space (c ∷ w) s h = refl

split_from-end : (w : Text) → w ≢ [] → split_from w [] ≡ w ∷ []
unfolding split_from
split_from-end [] h = absurd (h refl)
split_from-end (c ∷ w) h = refl

split-join_words : (ws : List Text) → All IsWord ws → split_whitespace (join_words ws) ≡ ws
unfolding split_whitespace join_words
split-join_words [] a = unfold split_from in refl
split-join_words (w ∷ []) a =
    ap (split_from []) (sym (append-nil w)) ∙ split_from-word [] w [] a.0.1 ∙ split_from-end w a.0.0
split-join_words (w ∷ v ∷ ws) a =
    split_from-word [] w (32 ∷ join_words (v ∷ ws)) a.0.1
    ∙ split_from-space w (join_words (v ∷ ws)) a.0.0
    ∙ ap (λ x. w ∷ x) (split-join_words (v ∷ ws) a.1)

drop_ip_idem : (ws : List Text) → drop_ip (drop_ip ws) ≡ drop_ip ws
unfolding drop_ip
drop_ip_idem [] = refl
drop_ip_idem (w ∷ ws) = ground (arith, drop_ip_idem ws)

-- The words of the stripped command line are those of the old one that do not begin with `ip=`, in
-- their order, and stripping once more changes nothing.
strip_ip-words :
    (s : Text)
    → (split_whitespace (strip_ip s) ≡ drop_ip (split_whitespace s))
      × (strip_ip (strip_ip s) ≡ strip_ip s)
unfolding strip_ip
strip_ip-words s = (
  words,
  ap (λ x. join_words (drop_ip x)) words ∙ ap join_words (drop_ip_idem (split_whitespace s)),
)
  where
    words : split_whitespace (strip_ip s) ≡ drop_ip (split_whitespace s)
    words = split-join_words _ (drop_ip-All _ (split_from-All [] s tt))
