-- ===== src/Netlink/Replies.antt =====
-- netlink.rs: what the queries read out of one message of a dump.
use containerd_cloudhypervis.Common.{
  ℕ, Bool, true, false, ◌&&◌, not, Option, none, some, List, [], ◌∷◌, ◌++◌, Text, codes, length,
  drop, ok, ◌>>=◌, ltb, ◌==◌, if◌then◌else◌, show_dec,
}
use containerd_cloudhypervis.Netlink.Bytes.{R, u16_at, u32_at, i32_at, byte_at}
use containerd_cloudhypervis.Netlink.Attributes.{Ipv4, parse_link_nlas, find_ipv4_nla, has_oif}

-- Index, name and MAC address.
abbrev pub Link : Type 0
Link = ℕ × Text × Text

abbrev pub af_inet : ℕ
af_inet = 2

-- `msg.len() < size || u16_at(&msg, 4) != ty`.
unfoldable pub other_than : ℕ → ℕ → Text → R Bool
unfolding u16_at
other_than size ty msg =
    if ltb (length msg) size then ok true else u16_at msg 4 >>= (λ t. ok (not (t == ty)))

-- The body of a loop for one message, skipped by `continue` where the test is true.
abbrev pub unless : {A : Type 0} → Bool → R (Option A) → R (Option A)
unless true r = ok none
unless false r = r

-- One round of `dump_links`.
unfoldable pub link_in : Text → R (Option Link)
unfolding other_than i32_at parse_link_nlas
link_in msg = do
  skip ← other_than 32 16 msg
  unless skip do
    idx ← i32_at msg 20
    (name, mac) ← parse_link_nlas (drop 32 msg)
    ok (some (idx, name, mac))

added : {A : Type 0} → Option A → List A → List A
added none rest = rest
added (some a) rest = a ∷ rest

unfoldable pub links_in : List Text → R (List Link)
unfolding link_in added
links_in [] = ok []
links_in (msg ∷ msgs) = do link ← link_in msg; rest ← links_in msgs; ok (added link rest)

-- A loop that returns at the first message that gives something.
unfoldable pub first_in : {A : Type 0} → (Text → R (Option A)) → List Text → R (Option A)
first_in f [] = ok none
first_in f (msg ∷ msgs) = do
  here ← f msg
  elim here [ none ↦ first_in f msgs | some a ↦ ok (some a) ]

unfoldable pub show_ip : Ipv4 → Text
show_ip (a, b, c, d) =
    show_dec a
    ++ (codes "." ++ (show_dec b ++ (codes "." ++ (show_dec c ++ (codes "." ++ show_dec d)))))

-- The tests of `get_ipv4` and `flush_addrs`: an address message of the interface, over IPv4.
unfoldable pub is_address_of : ℕ → Text → R Bool
unfolding other_than byte_at u32_at
is_address_of ifindex msg = do
  skip ← other_than 24 20 msg
  let tests = do
    family ← byte_at msg 16
    idx ← u32_at msg 20
    ok (family == af_inet && idx == ifindex)
  if skip then ok false else tests

-- One round of `get_ipv4`.
unfoldable pub address_in : ℕ → Text → R (Option Text)
unfolding is_address_of byte_at find_ipv4_nla show_ip show_dec
address_in ifindex msg = do
  found ← is_address_of ifindex msg
  unless (not found) do
    pfx ← byte_at msg 17
    ip ← find_ipv4_nla (drop 24 msg) 1
    ok (elim ip [ none ↦ none | some a ↦ some (show_ip a ++ (codes "/" ++ show_dec pfx)) ])

-- One round of `get_default_gw`.
unfoldable pub gateway_in : Text → R (Option Text)
unfolding other_than byte_at find_ipv4_nla show_ip show_dec
gateway_in msg = do
  skip ← other_than 28 24 msg
  unless skip do
    dst_len ← byte_at msg 17
    unless (not (dst_len == 0)) do
      gw ← find_ipv4_nla (drop 28 msg) 5
      ok (elim gw [ none ↦ none | some a ↦ some (show_ip a) ])

-- The tests of `flush_routes`.
unfoldable pub is_route_of : ℕ → Text → R Bool
unfolding other_than has_oif
is_route_of ifindex msg = do
  skip ← other_than 28 24 msg
  if skip then ok false else has_oif (drop 28 msg) ifindex
