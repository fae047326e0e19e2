-- ===== src/Agent/Network.antt =====
-- server.rs `configure_network` and `wait_for_device`. What the request is checked for comes before
-- anything is asked of the kernel.
use containerd_cloudhypervis.Common.{
  ℕ, ◌<◌, ◌≤◌, ◌≡◌, refl, Bool, Option, none, some, List, [], ◌∷◌, Text, codes, Result, ok, err,
  ◌>>=◌, ltb, leb, if◌then◌else◌, arith, ok_or, split,
}
use containerd_cloudhypervis.Netlink.Attributes.{Ipv4}
use containerd_cloudhypervis.Netlink.Replies.{show_ip}
use containerd_cloudhypervis.Netlink.Address.{parse_ipv4, parse_ipv4-show_ip}
use containerd_cloudhypervis.Netlink.Socket.{NlError, Socket, Outcome}
use containerd_cloudhypervis.Netlink.Configure.{configure_interface}

pub record ConfigureNetworkRequest : Type 0 where
  pub device : Text
  pub ip_address : Text
  pub prefix_len : ℕ
  pub gateway : Text
  pub mac : Text

pub data NetError : Type 0 where
  device_wait invalid_ip invalid_gateway invalid_prefix : NetError
  no_socket : NlError → NetError

-- Whether the device is there at each look before the deadline.
unfoldable pub wait_for_device : List Bool → Result NetError (Unit {0})
wait_for_device [] = err device_wait
wait_for_device (there ∷ looks) =
    let later = wait_for_device looks in if there then ok tt else later

unfoldable pub device_or_eth0 : Text → Text
device_or_eth0 [] = codes "eth0"
device_or_eth0 (c ∷ cs) = c ∷ cs

unfoldable pub given : Text → Option Text
given [] = none
given (c ∷ cs) = some (c ∷ cs)

unfoldable pub wait_unless : Option Text → List Bool → Result NetError (Unit {0})
wait_unless none looks = wait_for_device looks
wait_unless (some mac) looks = ok tt

unfoldable pub gateway_of : Text → Result NetError (Option Ipv4)
gateway_of [] = ok none
gateway_of (c ∷ cs) = ok_or (parse_ipv4 (c ∷ cs)) invalid_gateway >>= (λ gw. ok (some gw))

-- `u8::try_from`, then the test against 32.
unfoldable pub prefix_of : ℕ → Result NetError ℕ
prefix_of n =
    if leb n 255 then (if ltb 32 n then err invalid_prefix else ok n) else err invalid_prefix

-- `opened` is the new Netlink socket; the result is that of `configure_interface` on it.
unfoldable pub configure_network :
    (ℕ → Text)
    → List Bool
    → Result NlError Socket
    → ConfigureNetworkRequest
    → Result NetError (Outcome (Unit {0}))
configure_network io_text looks opened req = do
  let mac = given req.mac
  ready ← wait_unless mac looks
  ip ← ok_or (parse_ipv4 req.ip_address) invalid_ip
  gw ← gateway_of req.gateway
  prefix_len ← prefix_of req.prefix_len
  elim opened [
    | err e ↦ err (no_socket e)
    | ok s ↦ ok (configure_interface io_text (device_or_eth0 req.device) ip prefix_len gw mac s)
  ]

-- The text that the daemon sends for a gateway, if there is one.
abbrev pub gateway_text : Option Ipv4 → Text
gateway_text none = []
gateway_text (some gw) = show_ip gw

abbrev pub IsIpv4 : Ipv4 → Type 0
IsIpv4 (a, b, c, d) = (a < 256) × (b < 256) × (c < 256) × (d < 256)

abbrev pub IsGateway : Option Ipv4 → Type 0
IsGateway none = Unit {0}
IsGateway (some gw) = IsIpv4 gw

gateway_of_parsed : (s : Text) (gw : Ipv4) → parse_ipv4 s ≡ some gw → gateway_of s ≡ ok (some gw)
unfolding gateway_of parse_ipv4 split
gateway_of_parsed [] gw e = cc e
gateway_of_parsed (c ∷ cs) gw e = rw e refl

gateway_of_text : (gw : Option Ipv4) → IsGateway gw → gateway_of (gateway_text gw) ≡ ok gw
gateway_of_text none h = unfold gateway_of in refl
gateway_of_text (some (a, b, c, d)) (ha, hb, hc, hd) =
    gateway_of_parsed (show_ip (a, b, c, d)) (a, b, c, d) (parse_ipv4-show_ip a b c d ha hb hc hd)

prefix_of_small : (n : ℕ) → n ≤ 32 → prefix_of n ≡ ok n
unfolding prefix_of
prefix_of_small n h = ground arith

-- A request that shows an address, a prefix of at most 32 bits and perhaps a gateway configures the
-- interface with just these: the one with the MAC address if the request has one, or else the one
-- with the device's name, "eth0" if that is empty, once it is there.
pub configure_network-parsed :
    (io_text : ℕ → Text) (looks : List Bool) (s : Socket) (device : Text) (ip : Ipv4)
    (prefix_len : ℕ) (gw : Option Ipv4) (mac : Text)
    → IsIpv4 ip
    → IsGateway gw
    → prefix_len ≤ 32
    → wait_unless (given mac) looks ≡ ok tt
    → configure_network io_text looks (ok s) (record {
      device = device;
      ip_address = show_ip ip;
      prefix_len = prefix_len;
      gateway = gateway_text gw;
      mac = mac;
    })
      ≡ ok (configure_interface io_text (device_or_eth0 device) ip prefix_len gw (given mac) s)
unfolding configure_network
configure_network-parsed io_text looks s device (a, b, c, d) prefix_len gw mac (ha, hb, hc, hd) hg
      hp ready =
    rw
      (
        ready,
        parse_ipv4-show_ip a b c d ha hb hc hd,
        gateway_of_text gw hg,
        prefix_of_small prefix_len hp,
      )
      refl
