-- ===== src/Daemon/Gateway.antt =====
-- netns.rs `infer_gateway`, in the arithmetic of a release build: a shift takes its distance modulo
-- 32, and a sum wraps.
use containerd_cloudhypervis.Common.{
  ℕ, zero, suc, ◌+◌, ◌-◌, ◌*◌, ◌/◌, ◌%◌, ◌^◌, Option, none, some, List, [], ◌∷◌, Text, codes, split,
  show_dec, ltb, if◌then◌else◌, ◌≡◌, refl,
}
use containerd_cloudhypervis.Netlink.Attributes.{Ipv4}
use containerd_cloudhypervis.Netlink.Replies.{show_ip}
use containerd_cloudhypervis.Netlink.Address.{parse_ipv4, octet}
use containerd_cloudhypervis.Daemon.Network.{parse_u32}

-- `&` on numbers of that many bits.
unfoldable pub bit_and : ℕ → ℕ → ℕ → ℕ
bit_and zero x y = 0
bit_and (suc w) x y = x % 2 * (y % 2) + 2 * bit_and w (x / 2) (y / 2)

-- `u32::from` and `Ipv4Addr::from`.
unfoldable pub to_u32 : Ipv4 → ℕ
to_u32 (a, b, c, d) = ((a * 256 + b) * 256 + c) * 256 + d

unfoldable pub of_u32 : ℕ → Ipv4
of_u32 x = (x / 2 ^ 24 % 256, x / 2 ^ 16 % 256, x / 2 ^ 8 % 256, x % 256)

-- !((1u32 << (32 - prefix)) - 1)
unfoldable pub mask_of : ℕ → ℕ
mask_of prefix = let one_shifted = 2 ^ ((32 - prefix) % 32) in 2 ^ 32 - 1 - (one_shifted - 1)

unfoldable pub first_host : Ipv4 → ℕ → Ipv4
unfolding bit_and to_u32 of_u32 mask_of
first_host ip prefix = of_u32 ((bit_and 32 (to_u32 ip) (mask_of prefix) + 1) % 2 ^ 32)

gateway_in_subnet : Option Ipv4 → Option ℕ → Option Text
unfolding first_host show_ip
gateway_in_subnet none prefix = none
gateway_in_subnet (some ip) none = none
gateway_in_subnet (some ip) (some prefix) =
    if ltb 30 prefix then none else some (show_ip (first_host ip prefix))

gateway_of_parts : List Text → Option Text
unfolding gateway_in_subnet
gateway_of_parts [] = none
gateway_of_parts (ip ∷ []) = none
gateway_of_parts (ip ∷ prefix ∷ more) = gateway_in_subnet (parse_ipv4 ip) (parse_u32 prefix)

unfoldable pub infer_gateway : Text → Option Text
unfolding gateway_of_parts
infer_gateway ip_cidr = gateway_of_parts (split b'/' ip_cidr)

infer_gateway_test : infer_gateway (codes "10.88.3.2/16") ≡ some (codes "10.88.0.1")
unfolding infer_gateway split parse_ipv4 octet parse_u32 show_ip first_host show_dec
infer_gateway_test = refl

narrow_test : infer_gateway (codes "10.88.3.2/31") ≡ none
unfolding infer_gateway split parse_ipv4 octet parse_u32
narrow_test = refl
