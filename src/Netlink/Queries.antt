-- ===== src/Netlink/Queries.antt =====
-- netlink.rs: the calls that read a dump of links, addresses or routes.
use containerd_cloudhypervis.Common.{
  ℕ, ◌+◌, Option, none, some, List, [], ◌∷◌, Text, codes, length, replicate, leb, if◌then◌else◌,
  map, ite, Text-discrete,
}
use containerd_cloudhypervis.Netlink.Bytes.{write_at, set_byte, nlhdr}
use containerd_cloudhypervis.Netlink.Replies.{
  Link, af_inet, links_in, first_in, address_in, gateway_in, is_address_of, is_route_of,
}
use containerd_cloudhypervis.Netlink.Socket.{
  done, failed, blocked, stops, M, ◌>>=◌, ◌>>◌, pure, lift, next_seq, request,
}
use containerd_cloudhypervis.Netlink.Dump.{dump}

-- `to_lowercase`. A MAC address read from a message is ASCII, and no other letter becomes one of
-- its characters.
unfoldable pub to_lower : Text → Text
to_lower = map (λ c. if leb b'A' c then (if leb c b'Z' then c + 32 else c) else c)

unfoldable pub with_mac : Text → List Link → Option (Text × ℕ)
with_mac target [] = none
with_mac target ((idx, name, mac) ∷ links) =
    ite (Text-discrete (to_lower mac) target) (some (name, idx)) (with_mac target links)

-- `let _ = request(…)`, whose error is dropped.
unfoldable pub best_effort : M (Unit {0}) → M (Unit {0})
best_effort m s = elim (m s) [
  | done a t ↦ done tt t
  | failed e t ↦ done tt t
  | blocked ↦ blocked
  | stops f ↦ stops f
]

-- A message of a dump sent back to delete what it tells of.
unfoldable pub delete_request : ℕ → Text → M (Unit {0})
unfolding next_seq nlhdr request
delete_request ty msg = do seq ← next_seq; del ← lift (nlhdr msg (length msg) ty 5 seq); request del

delete_addresses : ℕ → List Text → M (Unit {0})
unfolding delete_request is_address_of
delete_addresses ifindex [] = pure tt
delete_addresses ifindex (msg ∷ msgs) = do
  found ← lift (is_address_of ifindex msg)
  if found then delete_request 21 msg else pure tt
  delete_addresses ifindex msgs

delete_routes : ℕ → List Text → M (Unit {0})
unfolding delete_request is_route_of best_effort
delete_routes ifindex [] = pure tt
delete_routes ifindex (msg ∷ msgs) = do
  found ← lift (is_route_of ifindex msg)
  if found then best_effort (delete_request 25 msg) else pure tt
  delete_routes ifindex msgs

module _ (io_text : ℕ → Text) where
  unfoldable pub dump_links : M (List Link)
  unfolding next_seq nlhdr dump links_in
  dump_links = do
    seq ← next_seq
    m ← lift (nlhdr (replicate 32 0) 32 18 0x301 seq)
    msgs ← dump io_text m
    lift (links_in msgs)

  unfoldable pub find_by_mac : Text → M (Option (Text × ℕ))
  unfolding dump_links to_lower with_mac Text-discrete
  find_by_mac target_mac = do links ← dump_links; pure (with_mac (to_lower target_mac) links)

  -- The addresses of all interfaces, as `get_ipv4` and `flush_addrs` ask for them.
  dump_addresses : M (List Text)
  unfolding next_seq nlhdr write_at dump
  dump_addresses = do
    seq ← next_seq
    m ← lift (nlhdr (replicate 24 0) 24 22 0x301 seq)
    m ← lift (set_byte m 16 af_inet)
    dump io_text m

  unfoldable pub get_ipv4 : ℕ → M (Option Text)
  unfolding dump_addresses first_in address_in
  get_ipv4 ifindex = do msgs ← dump_addresses; lift (first_in (address_in ifindex) msgs)

  veth_in : Text → List Link → M (Option (Text × ℕ × Text × Text))
  unfolding get_ipv4 Text-discrete
  veth_in tap [] = pure none
  veth_in tap ((idx, name, mac) ∷ links) =
      let skipped = veth_in tap links in
      let tried : M (Option (Text × ℕ × Text × Text)) = (do
        ip ← get_ipv4 idx
        elim ip [ none ↦ veth_in tap links | some cidr ↦ pure (some (name, idx, cidr, mac)) ]) in
      ite (Text-discrete name (codes "lo")) skipped
        (ite (Text-discrete name tap) skipped (ite (Text-discrete name []) skipped tried))

  unfoldable pub find_veth : Text → M (Option (Text × ℕ × Text × Text))
  unfolding dump_links veth_in
  find_veth tap = do links ← dump_links; veth_in tap links

  unfoldable pub flush_addrs : ℕ → M (Unit {0})
  unfolding dump_addresses delete_addresses
  flush_addrs ifindex = do msgs ← dump_addresses; delete_addresses ifindex msgs

  -- The IPv4 routes, as `get_default_gw` and `flush_routes` ask for them.
  dump_routes : M (List Text)
  unfolding next_seq nlhdr write_at dump
  dump_routes = do
    seq ← next_seq
    m ← lift (nlhdr (replicate 28 0) 28 26 0x301 seq)
    m ← lift (set_byte m 16 af_inet)
    dump io_text m

  unfoldable pub get_default_gw : M (Option Text)
  unfolding dump_routes first_in gateway_in
  get_default_gw = do msgs ← dump_routes; lift (first_in gateway_in msgs)

  unfoldable pub flush_routes : ℕ → M (Unit {0})
  unfolding dump_routes delete_routes
  flush_routes ifindex = do msgs ← dump_routes; delete_routes ifindex msgs
