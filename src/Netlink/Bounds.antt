-- ===== src/Netlink/Bounds.antt =====
-- Reads inside a buffer give a number, and the loops over attributes end without a panic.
use containerd_cloudhypervis.Common.{
  ℕ, zero, suc, ◌+◌, ◌-◌, ◌*◌, ◌≤◌, ◌<◌, ◌≡◌, refl, Bool, true, false, ◌||◌, Option, none, some, [],
  ◌∷◌, Text, length, take, drop, length-drop, ok, ltb, leb, if◌then◌else◌, arith,
}
use containerd_cloudhypervis.Netlink.Bytes.{R, u16_at, align4}
use containerd_cloudhypervis.Netlink.Attributes.{
  name_after, mac_after, link_nlas_from, parse_link_nlas, Ipv4, ipv4_nla_from, find_ipv4_nla,
  or_else,
}

-- The code gives a result: it neither panics nor goes on for ever.
abbrev pub Finishes : {A : Type 0} → R A → Type 0
Finishes {A} r = (a : A) × (r ≡ ok a)

u16_at-Finishes : (b : Text) (o : ℕ) → o + 2 ≤ length b → Finishes (u16_at b o)
unfolding u16_at
u16_at-Finishes b o h = two (drop o b) (omega (arith, length-drop o b))
  where
    two : (bs : Text) → 2 ≤ length bs → Finishes (u16_at bs 0)
    two [] h = absurd (omega arith)
    two (x ∷ []) h = absurd (omega arith)
    two (x ∷ y ∷ rest) h = (x + 256 * y, refl)

if-Finishes :
    {A : Type 0} (b : Bool) {r s : R A}
    → (b ≡ true → Finishes r)
    → (b ≡ false → Finishes s)
    → Finishes (if b then r else s)
if-Finishes true p q = p refl
if-Finishes false p q = q refl

link_nlas_from-Finishes :
    (fuel : ℕ) (nlas : Text) (off : ℕ) (name mac : Text)
    → length nlas - off < fuel
    → Finishes (link_nlas_from fuel nlas off name mac)
unfolding link_nlas_from
link_nlas_from-Finishes zero nlas off name mac h = absurd (omega arith)
link_nlas_from-Finishes (suc fuel) nlas off name mac h =
    if-Finishes (leb (off + 4) (length nlas))
      (λ more.
        let (len, len_eq) = u16_at-Finishes nlas off (ground arith) in
        let (ty, ty_eq) = u16_at-Finishes nlas (off + 2) (ground arith) in
        let p = take (len - 4) (drop (off + 4) nlas) in
        rw (len_eq, ty_eq)
          (if-Finishes (ltb len 4 || ltb (length nlas) (off + len)) (λ stop. ((name, mac), refl))
            (λ goes.
              link_nlas_from-Finishes fuel nlas (off + align4 len) (name_after ty p name)
                (mac_after ty p mac) (ground arith))))
      (λ past. ((name, mac), refl))

-- Whatever bytes follow the header of a link, they are parsed to an end.
pub parse_link_nlas-Finishes : (nlas : Text) → Finishes (parse_link_nlas nlas)
unfolding parse_link_nlas
parse_link_nlas-Finishes nlas =
    link_nlas_from-Finishes (suc (length nlas)) nlas 0 [] [] (omega arith)

found_or-Finishes :
    (found : Option Ipv4) {r : R (Option Ipv4)} → Finishes r → Finishes (or_else found r)
unfolding or_else
found_or-Finishes none h = h
found_or-Finishes (some ip) h = (some ip, refl)

ipv4_nla_from-Finishes :
    (fuel : ℕ) (nlas : Text) (target off : ℕ)
    → length nlas - off < fuel
    → Finishes (ipv4_nla_from fuel nlas target off)
unfolding ipv4_nla_from
ipv4_nla_from-Finishes zero nlas target off h = absurd (omega arith)
ipv4_nla_from-Finishes (suc fuel) nlas target off h =
    if-Finishes (leb (off + 4) (length nlas))
      (λ more.
        let (len, len_eq) = u16_at-Finishes nlas off (ground arith) in
        let (ty, ty_eq) = u16_at-Finishes nlas (off + 2) (ground arith) in
        rw (len_eq, ty_eq)
          (if-Finishes (ltb len 4 || ltb (length nlas) (off + len)) (λ stop. (none, refl))
            (λ goes.
              found_or-Finishes _
                (ipv4_nla_from-Finishes fuel nlas target (off + align4 len) (ground arith)))))
      (λ past. (none, refl))

pub find_ipv4_nla-Finishes : (nlas : Text) (target : ℕ) → Finishes (find_ipv4_nla nlas target)
unfolding find_ipv4_nla
find_ipv4_nla-Finishes nlas target =
    ipv4_nla_from-Finishes (suc (length nlas)) nlas target 0 (omega arith)
