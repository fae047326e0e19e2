-- ===== src/Netlink/Attributes.antt =====
-- netlink.rs `parse_link_nlas`, `find_ipv4_nla` and the loop of `flush_routes` over the attributes
-- of a route: each walks a list of attributes, length and type before the payload, each attribute
-- padded to four bytes.
use containerd_cloudhypervis.Common.{
  ℕ, zero, suc, ◌+◌, ◌-◌, ◌/◌, ◌%◌, ◌≡◌, refl, Bool, false, ◌&&◌, ◌||◌, Option, none, some, [], ◌∷◌,
  Text, codes, length, take, drop, ok, err, ◌>>=◌, ltb, leb, ◌==◌, if◌then◌else◌, lossy,
}
use containerd_cloudhypervis.Netlink.Bytes.{spinning, R, u16_at, u32_at, align4}

-- `trim_end_matches('\0')`.
unfoldable pub trim_end : Text → Text
trim_end [] = []
trim_end (c ∷ cs) =
    let rest = trim_end cs in elim rest [ [] ↦ if c == 0 then [] else c ∷ [] | d ∷ ds ↦ c ∷ d ∷ ds ]

hex_digit : ℕ → ℕ
hex_digit d = if ltb d 10 then b'0' + d else b'a' + (d - 10)

-- The bytes as `{b:02x}`, joined by colons.
unfoldable pub show_mac : Text → Text
unfolding hex_digit
show_mac [] = []
show_mac (b ∷ []) = hex_digit (b / 16) ∷ hex_digit (b % 16) ∷ []
show_mac (b ∷ c ∷ bs) = hex_digit (b / 16) ∷ hex_digit (b % 16) ∷ b':' ∷ show_mac (c ∷ bs)

unfoldable pub name_after : ℕ → Text → Text → Text
unfolding trim_end lossy
name_after ty p name = if ty == 3 then trim_end (lossy p) else name

unfoldable pub mac_after : ℕ → Text → Text → Text
unfolding show_mac
mac_after ty p mac = if ty == 1 && length p == 6 then show_mac p else mac

unfoldable pub link_nlas_from : ℕ → Text → ℕ → Text → Text → R (Text × Text)
unfolding u16_at name_after mac_after
link_nlas_from zero nlas off name mac = err spinning
link_nlas_from (suc fuel) nlas off name mac =
    let step : R (Text × Text) = (do
      len ← u16_at nlas off
      ty ← u16_at nlas (off + 2)
      let p = take (len - 4) (drop (off + 4) nlas)
      let rest =
          link_nlas_from fuel nlas (off + align4 len) (name_after ty p name) (mac_after ty p mac)
      if ltb len 4 || ltb (length nlas) (off + len) then ok (name, mac) else rest) in
    if leb (off + 4) (length nlas) then step else ok (name, mac)

-- Every round moves on by at least four bytes, so the fuel is enough.
unfoldable pub parse_link_nlas : Text → R (Text × Text)
unfolding link_nlas_from
parse_link_nlas nlas = link_nlas_from (suc (length nlas)) nlas 0 [] []

-- An `Ipv4Addr` is its four octets.
abbrev pub Ipv4 : Type 0
Ipv4 = ℕ × ℕ × ℕ × ℕ

unfoldable pub octets_of : Text → Option Ipv4
octets_of (a ∷ b ∷ c ∷ d ∷ rest) = some (a, b, c, d)
octets_of p = none

unfoldable pub or_else : Option Ipv4 → R (Option Ipv4) → R (Option Ipv4)
or_else none r = r
or_else (some ip) r = ok (some ip)

unfoldable pub ipv4_nla_from : ℕ → Text → ℕ → ℕ → R (Option Ipv4)
unfolding u16_at octets_of or_else
ipv4_nla_from zero nlas target off = err spinning
ipv4_nla_from (suc fuel) nlas target off =
    let step : R (Option Ipv4) = (do
      len ← u16_at nlas off
      ty ← u16_at nlas (off + 2)
      let found = if ty == target && leb 8 len then octets_of (drop (off + 4) nlas) else none
      let rest = ipv4_nla_from fuel nlas target (off + align4 len)
      if ltb len 4 || ltb (length nlas) (off + len) then ok none else or_else found rest) in
    if leb (off + 4) (length nlas) then step else ok none

unfoldable pub find_ipv4_nla : Text → ℕ → R (Option Ipv4)
unfolding ipv4_nla_from
find_ipv4_nla nlas target = ipv4_nla_from (suc (length nlas)) nlas target 0

-- The loop of `flush_routes`, which does not test that an attribute ends inside the message.
oif_matches : Text → ℕ → ℕ → ℕ → ℕ → R Bool
unfolding u32_at
oif_matches nlas ifindex off len ty =
    if ty == 4 && leb 8 len
    then u32_at nlas (off + 4) >>= (λ oif. ok (oif == ifindex))
    else ok false

unfoldable pub oif_from : ℕ → Text → ℕ → ℕ → Bool → R Bool
unfolding u16_at oif_matches
oif_from zero nlas ifindex off found = err spinning
oif_from (suc fuel) nlas ifindex off found =
    let step : R Bool = (do
      len ← u16_at nlas off
      ty ← u16_at nlas (off + 2)
      let rest =
          oif_matches nlas ifindex off len ty
          >>= (λ here. oif_from fuel nlas ifindex (off + align4 len) (here || found))
      if ltb len 4 then ok found else rest) in
    if leb (off + 4) (length nlas) then step else ok found

unfoldable pub has_oif : Text → ℕ → R Bool
unfolding oif_from
has_oif nlas ifindex = oif_from (suc (length nlas)) nlas ifindex 0 false

abbrev eth0_nlas : Text
eth0_nlas =
    9 ∷ 0 ∷ 3 ∷ 0 ∷ b'e' ∷ b't' ∷ b'h' ∷ b'0' ∷ 0 ∷ 0 ∷ 0 ∷ 0 ∷ 10 ∷ 0 ∷ 1 ∷ 0 ∷ 2 ∷ 66 ∷ 172 ∷ 17
    ∷ 0 ∷ 10 ∷ 0 ∷ 0 ∷ []

link_test : parse_link_nlas eth0_nlas ≡ ok (codes "eth0", codes "02:42:ac:11:00:0a")
unfolding parse_link_nlas
link_test = refl

ipv4_test : find_ipv4_nla (8 ∷ 0 ∷ 1 ∷ 0 ∷ 10 ∷ 0 ∷ 0 ∷ 7 ∷ []) 1 ≡ ok (some (10, 0, 0, 7))
unfolding find_ipv4_nla
ipv4_test = refl
