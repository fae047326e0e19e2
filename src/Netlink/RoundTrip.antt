-- ===== src/Netlink/RoundTrip.antt =====
-- What the parsers of netlink.rs read out of any list of attributes.
use containerd_cloudhypervis.Common.{
  ℕ, zero, suc, ◌+◌, ◌≤◌, ◌<◌, ◌≡◌, refl, ◌∙◌, Bool, false, ◌&&◌, Option, none, some, List, [], ◌∷◌,
  ◌++◌, Text, length, length-append, ok, leb, ◌==◌, if◌then◌else◌, inl, inr, Bool-cases, arith, All,
  lossy,
}
use containerd_cloudhypervis.Netlink.Attributes.{
  name_after, mac_after, link_nlas_from, parse_link_nlas, Ipv4, ipv4_nla_from, find_ipv4_nla,
  or_else, octets_of, trim_end, show_mac,
}
use containerd_cloudhypervis.Netlink.Encoding.{
  Attr, padding, nla, nlas, IsFitting, length-nlas, link_step, ipv4_step,
}

-- The payload of the last attribute that passes a test.
unfoldable pub last_with : (Attr → Bool) → List Attr → Option Text
last_with test [] = none
last_with test ((ty, p) ∷ more) = elim (last_with test more) [
  | some q ↦ some q
  | none ↦ if test (ty, p) then some p else none
]

abbrev pub is_name : Attr → Bool
is_name (ty, p) = ty == 3

abbrev pub is_mac : Attr → Bool
is_mac (ty, p) = ty == 1 && length p == 6

-- What the last attribute of a kind gives, or what was there before.
abbrev pub name_or : Text → Option Text → Text
name_or name none = name
name_or name (some p) = trim_end (lossy p)

abbrev pub mac_or : Text → Option Text → Text
mac_or mac none = mac
mac_or mac (some p) = show_mac p

name_or-after :
    (ty : ℕ) (p name : Text) (more : List Attr)
    → name_or (name_after ty p name) (last_with is_name more)
      ≡ name_or name (last_with is_name ((ty, p) ∷ more))
unfolding last_with name_after
name_or-after ty p name more = ground arith

mac_or-after :
    (ty : ℕ) (p mac : Text) (more : List Attr)
    → mac_or (mac_after ty p mac) (last_with is_mac more)
      ≡ mac_or mac (last_with is_mac ((ty, p) ∷ more))
unfolding last_with mac_after
mac_or-after ty p mac more = ground arith

ends_here : (pre : Text) → leb (length pre + 4) (length (pre ++ [])) ≡ false
ends_here pre = ground (arith, length-append pre [])

link_nlas_from-nlas :
    (fuel : ℕ) (pre : Text) (attrs : List Attr) (name mac : Text)
    → All IsFitting attrs
    → length attrs < fuel
    → link_nlas_from fuel (pre ++ nlas attrs) (length pre) name mac
      ≡ ok (name_or name (last_with is_name attrs), mac_or mac (last_with is_mac attrs))
unfolding nlas
link_nlas_from-nlas zero pre attrs name mac fits h = absurd (omega arith)
link_nlas_from-nlas (suc fuel) pre [] name mac fits h =
    unfold link_nlas_from last_with in rw (ends_here pre) refl
link_nlas_from-nlas (suc fuel) pre ((ty, p) ∷ more) name mac fits h =
    link_step pre (nlas more) ty p fits.0 fuel name mac
    ∙ link_nlas_from-nlas fuel (pre ++ nla (ty, p)) more (name_after ty p name) (mac_after ty p mac)
        fits.1 (omega arith)
    ∙ rw (name_or-after ty p name more, mac_or-after ty p mac more) refl

-- A link's name is read from its last attribute of type 3, its MAC address from the last one of
-- type 1 with six bytes, whatever other attributes stand around them.
pub parse_link_nlas-nlas :
    (attrs : List Attr)
    → All IsFitting attrs
    → parse_link_nlas (nlas attrs)
      ≡ ok (name_or [] (last_with is_name attrs), mac_or [] (last_with is_mac attrs))
unfolding parse_link_nlas
parse_link_nlas-nlas attrs fits =
    link_nlas_from-nlas (suc (length (nlas attrs))) [] attrs [] [] fits
      (omega (arith, length-nlas attrs))

-- The first four bytes of the first attribute of a type that has as many.
unfoldable pub first_ipv4 : ℕ → List Attr → Option Ipv4
unfolding octets_of
first_ipv4 target [] = none
first_ipv4 target ((ty, p) ∷ more) =
    if ty == target && leb 4 (length p) then octets_of p else first_ipv4 target more

octets_of-append :
    (p rest : Text)
    → 4 ≤ length p
    → (ip : Ipv4) × (octets_of (p ++ rest) ≡ some ip) × (octets_of p ≡ some ip)
unfolding octets_of
octets_of-append [] rest h = absurd (omega arith)
octets_of-append (a ∷ []) rest h = absurd (omega arith)
octets_of-append (a ∷ b ∷ []) rest h = absurd (omega arith)
octets_of-append (a ∷ b ∷ c ∷ []) rest h = absurd (omega arith)
octets_of-append (a ∷ b ∷ c ∷ d ∷ p) rest h = ((a, b, c, d), refl, refl)

first_ipv4_step :
    (target ty : ℕ) (p tail : Text) (more : List Attr)
    → or_else
        (if ty == target && leb 4 (length p) then octets_of (p ++ tail) else none)
        (ok (first_ipv4 target more))
      ≡ ok (first_ipv4 target ((ty, p) ∷ more))
unfolding first_ipv4 or_else
first_ipv4_step target ty p tail more = elim (Bool-cases (ty == target && leb 4 (length p))) [
  | inl e ↦
      let (ip, long, short) = octets_of-append p tail (ground arith) in rw (e, long, short) refl
  | inr e ↦ rw e refl
]

ipv4_nla_from-nlas :
    (fuel : ℕ) (pre : Text) (attrs : List Attr) (target : ℕ)
    → All IsFitting attrs
    → length attrs < fuel
    → ipv4_nla_from fuel (pre ++ nlas attrs) target (length pre) ≡ ok (first_ipv4 target attrs)
unfolding nlas
ipv4_nla_from-nlas zero pre attrs target fits h = absurd (omega arith)
ipv4_nla_from-nlas (suc fuel) pre [] target fits h =
    unfold ipv4_nla_from first_ipv4 in rw (ends_here pre) refl
ipv4_nla_from-nlas (suc fuel) pre ((ty, p) ∷ more) target fits h =
    ipv4_step pre (nlas more) ty p fits.0 fuel target
    ∙ rw (ipv4_nla_from-nlas fuel (pre ++ nla (ty, p)) more target fits.1 (omega arith))
        (first_ipv4_step target ty p (padding (4 + length p) ++ nlas more) more)

-- An address is the first four bytes of the first attribute of the type asked for that has four.
pub find_ipv4_nla-nlas :
    (attrs : List Attr) (target : ℕ)
    → All IsFitting attrs
    → find_ipv4_nla (nlas attrs) target ≡ ok (first_ipv4 target attrs)
unfolding find_ipv4_nla
find_ipv4_nla-nlas attrs target fits =
    ipv4_nla_from-nlas (suc (length (nlas attrs))) [] attrs target fits
      (omega (arith, length-nlas attrs))
