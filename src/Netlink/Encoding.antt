-- ===== src/Netlink/Encoding.antt =====
-- Attributes as the kernel writes them, and one round of the parsers of netlink.rs on them.
use containerd_cloudhypervis.Common.{
  ℕ, zero, suc, ◌+◌, ◌-◌, ◌≤◌, ◌<◌, ◌≡◌, refl, sym, ap, ◌&&◌, none, List, [], ◌∷◌, ◌++◌, Text,
  length, take, drop, replicate, length-append, drop-append, ok, leb, ◌==◌, if◌then◌else◌, arith,
}
use mathlib.Core.List.{append_assoc}
use containerd_cloudhypervis.Netlink.Bytes.{u16_bytes, u16_at, align4}
use containerd_cloudhypervis.Netlink.Attributes.{
  name_after, mac_after, link_nlas_from, ipv4_nla_from, or_else, octets_of,
}

-- The type of an attribute and its payload.
abbrev pub Attr : Type 0
Attr = ℕ × Text

abbrev pub padding : ℕ → Text
padding n = replicate (align4 n - n) 0

unfoldable pub nla : Attr → Text
nla (ty, p) = u16_bytes (4 + length p) ++ (u16_bytes ty ++ (p ++ padding (4 + length p)))

unfoldable pub nlas : List Attr → Text
unfolding nla
nlas [] = []
nlas (a ∷ more) = nla a ++ nlas more

-- Both fit into the 16 bits that they are given.
abbrev pub IsFitting : Attr → Type 0
IsFitting (ty, p) = (ty < 65536) × (4 + length p < 65536)

pub length-replicate : (n b : ℕ) → length (replicate n b) ≡ n
length-replicate zero b = refl
length-replicate (suc n) b = omega (arith, length-replicate n b)

pub length-nla : (a : Attr) → length (nla a) ≡ align4 (4 + length a.1)
unfolding nla
length-nla (ty, p) = omega (
  arith,
  length-append p (padding (4 + length p)),
  length-replicate (align4 (4 + length p) - (4 + length p)) 0,
)

pub drop-past_front : (xs ys : Text) (n : ℕ) → drop (length xs + n) (xs ++ ys) ≡ drop n ys
drop-past_front [] ys n = let e : 0 + n ≡ n = omega arith in rw e refl
drop-past_front (x ∷ xs) ys n =
    let e : length (x ∷ xs) + n ≡ suc (length xs + n) = omega arith in
    rw e (drop-past_front xs ys n)

pub take-front : (xs ys : Text) → take (length xs) (xs ++ ys) ≡ xs
take-front [] ys = refl
take-front (x ∷ xs) ys = ap (λ r. x ∷ r) (take-front xs ys)

module _ (pre tail : Text) (ty : ℕ) (p : Text) (fits : IsFitting (ty, p)) where
  u16_at-len : u16_at (pre ++ (nla (ty, p) ++ tail)) (length pre) ≡ ok (4 + length p)
  unfolding u16_at nla
  u16_at-len = rw (drop-append pre (nla (ty, p) ++ tail)) (ap ok (omega arith))

  u16_at-type : u16_at (pre ++ (nla (ty, p) ++ tail)) (length pre + 2) ≡ ok ty
  unfolding u16_at nla
  u16_at-type = rw (drop-past_front pre (nla (ty, p) ++ tail) 2) (ap ok (omega arith))

  body_read :
      drop (length pre + 4) (pre ++ (nla (ty, p) ++ tail)) ≡ p ++ (padding (4 + length p) ++ tail)
  unfolding nla
  body_read =
      rw (drop-past_front pre (nla (ty, p) ++ tail) 4)
        (append_assoc p (padding (4 + length p)) tail)

  payload_read : take (4 + length p - 4) (drop (length pre + 4) (pre ++ (nla (ty, p) ++ tail))) ≡ p
  payload_read =
      let e : 4 + length p - 4 ≡ length p = omega arith in
      rw (body_read, e) (take-front p (padding (4 + length p) ++ tail))

  -- The next attribute starts where this one ends.
  next_off : length pre + align4 (4 + length p) ≡ length (pre ++ nla (ty, p))
  next_off = omega (arith, length-append pre (nla (ty, p)), length-nla (ty, p))

  fits_in :
      (length pre + (4 + length p) ≤ length (pre ++ (nla (ty, p) ++ tail)))
      × (length pre + 4 ≤ length (pre ++ (nla (ty, p) ++ tail)))
  fits_in = omega (
    arith,
    length-append pre (nla (ty, p) ++ tail),
    length-append (nla (ty, p)) tail,
    length-nla (ty, p),
  )

  pub link_step :
      (fuel : ℕ) (name mac : Text)
      → link_nlas_from (suc fuel) (pre ++ (nla (ty, p) ++ tail)) (length pre) name mac
        ≡ link_nlas_from fuel
            ((pre ++ nla (ty, p)) ++ tail)
            (length (pre ++ nla (ty, p)))
            (name_after ty p name)
            (mac_after ty p mac)
  unfolding link_nlas_from
  link_step fuel name mac =
      rw
        (
          sym next_off,
          append_assoc pre (nla (ty, p)) tail,
          link_nlas_from,
          u16_at-len,
          u16_at-type,
          payload_read,
        )
        (ground (arith, fits_in))

  pub ipv4_step :
      (fuel target : ℕ)
      → ipv4_nla_from (suc fuel) (pre ++ (nla (ty, p) ++ tail)) target (length pre)
        ≡ or_else
            (if ty == target && leb 4 (length p)
              then octets_of (p ++ (padding (4 + length p) ++ tail))
              else none)
            (ipv4_nla_from fuel ((pre ++ nla (ty, p)) ++ tail) target (length (pre ++ nla (ty, p))))
  unfolding ipv4_nla_from
  ipv4_step fuel target =
      let e : leb 8 (4 + length p) ≡ leb 4 (length p) = ground arith in
      rw (sym next_off, append_assoc pre (nla (ty, p)) tail, u16_at-len, u16_at-type, body_read, e)
        (ground (arith, fits_in))

pub length-nlas : (attrs : List Attr) → length attrs ≤ length (nlas attrs)
unfolding nlas
length-nlas [] = omega arith
length-nlas (a ∷ more) =
    omega (arith, length-append (nla a) (nlas more), length-nla a, length-nlas more)
