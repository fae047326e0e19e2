-- ===== src/Daemon/Network.antt =====
-- api.rs `setup_vm_networking` and `configure_guest_network`, with the names and the address that
-- they take apart.
use containerd_cloudhypervis.Common.{
  ℕ, ◌+◌, ◌-◌, ◌*◌, ◌^◌, Bool, ◌&&◌, Option, none, some, [], ◌∷◌, ◌++◌, Text, codes, take,
  unwrap_or, if◌then◌else◌, ◌==◌, ltb, leb,
}
use containerd_cloudhypervis.Daemon.State.{
  tap_prepared, tap_activated, add_net, configure_network, prepare_tap, hot_plug_tap, activate_tap,
  configure_failed, M, ◌>>=◌, ◌>>◌, return, attempt, attempt_with, send,
}

-- crates/daemon/src/netns.rs `PodNetInfo`: what the probe of the pod's namespace finds.
pub record PodNetInfo : Type 0 where
  pub ip_cidr : Text
  pub gateway : Text
  pub mac : Text

pub record NetTrial : Type 0 where
  pub prepared : Option PodNetInfo
  pub plugged : Bool
  pub activated : Bool

-- format!("tap_{}", &vm_id[..8.min(vm_id.len())]). The name is ASCII.
unfoldable pub tap_name : Text → Text
tap_name vm_id = codes "tap_" ++ take 8 vm_id

unfoldable pub setup_vm_networking : Text → Text → Text → NetTrial → M (Text × PodNetInfo)
setup_vm_networking netns vm_id api_socket t = do
  let tap = tap_name vm_id
  info ← attempt_with t.prepared prepare_tap
  send (tap_prepared netns tap)
  attempt t.plugged hot_plug_tap
  send (add_net api_socket tap info.mac)
  attempt t.activated activate_tap
  send (tap_activated netns tap)
  return (tap, info)

-- `str::parse::<u32>` after the sign: digits up to the end, and a value that fits.
unfoldable pub parse_digits : ℕ → Text → Option ℕ
parse_digits acc [] = some acc
parse_digits acc (c ∷ cs) =
    let next = acc * 10 + (c - b'0') in
    let rest = parse_digits next cs in
    if leb b'0' c && leb c b'9' && ltb next (2 ^ 32) then rest else none

unfoldable pub parse_u32 : Text → Option ℕ
unfolding parse_digits
parse_u32 [] = none
parse_u32 (c ∷ []) = if c == b'+' then none else parse_digits 0 (c ∷ [])
parse_u32 (c ∷ d ∷ cs) = if c == b'+' then parse_digits 0 (d ∷ cs) else parse_digits 0 (c ∷ d ∷ cs)

-- The first part of `split('/')`.
unfoldable pub before_slash : Text → Text
before_slash [] = []
before_slash (c ∷ cs) = let rest = before_slash cs in if c == b'/' then [] else c ∷ rest

-- The second part, if there is one.
unfoldable pub after_slash : Text → Option Text
unfolding before_slash
after_slash [] = none
after_slash (c ∷ cs) =
    let rest = after_slash cs in if c == b'/' then some (before_slash cs) else rest

unfoldable pub prefix_or_24 : Option Text → ℕ
unfolding parse_u32
prefix_or_24 none = 24
prefix_or_24 (some p) = unwrap_or (parse_u32 p) 24

-- `agent` is the vsock socket of the connection.
unfoldable pub configure_guest_network : Text → Text → Text → Bool → M (Unit {0})
unfolding before_slash after_slash prefix_or_24
configure_guest_network agent ip_cidr gateway answered = do
  send (configure_network agent (before_slash ip_cidr) (prefix_or_24 (after_slash ip_cidr)) gateway)
  attempt answered configure_failed
