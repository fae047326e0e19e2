-- ===== src/Netlink/Address.antt =====
-- IPv4 addresses as text: `Ipv4Addr::from_str` and `Display`.
use containerd_cloudhypervis.Common.{
  ℕ, zero, suc, ◌+◌, ◌-◌, ◌*◌, ◌<◌, ◌≡◌, refl, Bool, true, false, ◌&&◌, not, Option, none, some,
  List, [], ◌∷◌, Text, if◌then◌else◌, ◌==◌, ltb, leb, show_dec, split, join_with, split-join_with,
  Lacks, arith,
}
use containerd_cloudhypervis.Netlink.Attributes.{Ipv4}
use containerd_cloudhypervis.Netlink.Replies.{show_ip}

octet_from : ℕ → Text → Option ℕ
octet_from acc [] = some acc
octet_from acc (c ∷ cs) =
    let next = acc * 10 + (c - b'0') in
    let rest = octet_from next cs in if leb b'0' c && leb c b'9' && ltb next 256 then rest else none

-- Digits without a leading zero, and a value below 256, so three digits at most.
unfoldable pub octet : Text → Option ℕ
unfolding octet_from
octet [] = none
octet (c ∷ []) = octet_from 0 (c ∷ [])
octet (c ∷ d ∷ cs) = if c == b'0' then none else octet_from 0 (c ∷ d ∷ cs)

octets_from : List Text → Option Ipv4
octets_from (p ∷ q ∷ r ∷ s ∷ []) = elim (octet p) [
  | none ↦ none
  | some a ↦ elim (octet q) [
    | none ↦ none
    | some b ↦ elim (octet r) [
      | none ↦ none
      | some c ↦ elim (octet s) [ none ↦ none | some d ↦ some (a, b, c, d) ]
    ]
  ]
]
octets_from parts = none

unfoldable pub parse_ipv4 : Text → Option Ipv4
unfolding octets_from
parse_ipv4 s = octets_from (split b'.' s)

-- Every octet, shown and read again, is checked.
is_read : ℕ → Option ℕ → Bool
is_read n none = false
is_read n (some m) = n == m

lacks_dot : Text → Bool
lacks_dot [] = true
lacks_dot (c ∷ cs) = not (c == b'.') && lacks_dot cs

every : ℕ → (ℕ → Bool) → Bool
every zero p = true
every (suc n) p = p n && every n p

every_lem : (n : ℕ) (p : ℕ → Bool) (x : ℕ) → every n p ≡ true → x < n → p x ≡ true
unfolding every
every_lem zero p x h lt = absurd (omega arith)
every_lem (suc n) p x h lt = ground (arith, every_lem n p x)

octet_table : every 256 (λ n. is_read n (octet (show_dec n)) && lacks_dot (show_dec n)) ≡ true
unfolding every is_read octet show_dec lacks_dot
octet_table = refl

lacks_dot-Lacks : (s : Text) → lacks_dot s ≡ true → Lacks b'.' s
unfolding lacks_dot
lacks_dot-Lacks [] h = tt
lacks_dot-Lacks (c ∷ cs) h = ((λ e. ground arith), lacks_dot-Lacks cs (ground arith))

is_read_lem : (n : ℕ) (o : Option ℕ) → is_read n o ≡ true → o ≡ some n
unfolding is_read
is_read_lem n none h = cc
is_read_lem n (some m) h = ground arith

octet-show_dec : (n : ℕ) → n < 256 → (octet (show_dec n) ≡ some n) × Lacks b'.' (show_dec n)
octet-show_dec n h =
    let both = every_lem 256 _ n octet_table h in
    (
      is_read_lem n (octet (show_dec n)) (ground (arith, both)),
      lacks_dot-Lacks (show_dec n) (ground (arith, both)),
    )

octets_from-some :
    (p q r s : Text) (a b c d : ℕ)
    → octet p ≡ some a
    → octet q ≡ some b
    → octet r ≡ some c
    → octet s ≡ some d
    → octets_from (p ∷ q ∷ r ∷ s ∷ []) ≡ some (a, b, c, d)
unfolding octets_from
octets_from-some p q r s a b c d ha hb hc hd = ground arith

-- An address that is shown is read back.
pub parse_ipv4-show_ip :
    (a b c d : ℕ)
    → a < 256
    → b < 256
    → c < 256
    → d < 256
    → parse_ipv4 (show_ip (a, b, c, d)) ≡ some (a, b, c, d)
unfolding show_ip parse_ipv4
parse_ipv4-show_ip a b c d ha hb hc hd =
    let (ra, la) = octet-show_dec a ha in
    let (rb, lb) = octet-show_dec b hb in
    let (rc, lc) = octet-show_dec c hc in
    let (rd, ld) = octet-show_dec d hd in
    let parts = show_dec b ∷ show_dec c ∷ show_dec d ∷ [] in
    let cut = split-join_with b'.' (show_dec a) parts (la, (lb, (lc, (ld, tt)))) in
    unfold join_with in rw cut (octets_from-some _ _ _ _ a b c d ra rb rc rd)
