-- ===== src/Daemon/Subnet.antt =====
-- netns.rs `infer_gateway` on the address that netlink.rs writes.
use containerd_cloudhypervis.Common.{
  ℕ, zero, suc, ◌+◌, ◌-◌, ◌*◌, ◌/◌, ◌%◌, ◌^◌, ◌≤◌, ◌<◌, ◌≡◌, refl, sym, ap, ◌∙◌, some, ◌∷◌, ◌++◌,
  Text, show_dec, split-append, split-clean, Lacks, All-append, arith,
}
use native.Mathlib.Nat.{div-add-mod', two-pow-succ, div-div-eq-div-mul, pow-le-pow_right}
use containerd_cloudhypervis.Netlink.Attributes.{Ipv4}
use containerd_cloudhypervis.Netlink.Replies.{show_ip}
use containerd_cloudhypervis.Netlink.Address.{parse_ipv4-show_ip}
use containerd_cloudhypervis.Daemon.Names.{parse_u32-show_dec, show_dec-Lacks}
use containerd_cloudhypervis.Daemon.Gateway.{
  bit_and, to_u32, of_u32, mask_of, first_host, infer_gateway,
}

doubled : (k : ℕ) → 2 ^ suc k ≡ 2 * 2 ^ k
doubled k = omega (arith, two-pow-succ k)

power_pos : (k : ℕ) → 0 < 2 ^ k
power_pos zero = omega arith
power_pos (suc k) = omega (arith, power_pos k, doubled k)

bit_and-ones : (w x : ℕ) → x < 2 ^ w → bit_and w x (2 ^ w - 1) ≡ x
unfolding bit_and
bit_and-ones zero x h = omega arith
bit_and-ones (suc w) x h =
    let d = doubled w in
    let p = power_pos w in
    let odd : (2 ^ suc w - 1) % 2 ≡ 1 = omega arith in
    let half : (2 ^ suc w - 1) / 2 ≡ 2 ^ w - 1 = omega arith in
    rw (odd, half, bit_and-ones w (x / 2) (omega arith)) (omega arith)

-- A mask of ones above k zeros clears the low k bits.
bit_and-mask : (k w x : ℕ) → k ≤ w → x < 2 ^ w → bit_and w x (2 ^ w - 2 ^ k) ≡ x / 2 ^ k * 2 ^ k
unfolding bit_and
bit_and-mask zero w x l h = bit_and-ones w x h ∙ omega arith
bit_and-mask (suc k) zero x l h = absurd (omega arith)
bit_and-mask (suc k) (suc w) x l h =
    let dk = doubled k in
    let dw = doubled w in
    let under = pow-le-pow_right {n = 2} (omega arith) {i = k} {j = w} (omega arith) in
    let even : (2 ^ suc w - 2 ^ suc k) % 2 ≡ 0 = omega arith in
    let half : (2 ^ suc w - 2 ^ suc k) / 2 ≡ 2 ^ w - 2 ^ k = omega arith in
    let twice : x / 2 / 2 ^ k ≡ x / 2 ^ suc k =
      div-div-eq-div-mul x 2 (2 ^ k) ∙ ap (λ (m : ℕ). x / m) (sym dk) in
    let ih = bit_and-mask k w (x / 2) (omega arith) (omega arith) in
    rw (even, half, ih, twice, dk) (grind arith)

u32_bound : (a b c d : ℕ) → a < 256 → b < 256 → c < 256 → d < 256 → to_u32 (a, b, c, d) < 2 ^ 32
unfolding to_u32
u32_bound a b c d ha hb hc hd = omega arith

mask_lem : (n : ℕ) → 1 ≤ n → n ≤ 30 → mask_of n ≡ 2 ^ 32 - 2 ^ (32 - n)
unfolding mask_of
mask_lem n l h =
    let small : (32 - n) % 32 ≡ 32 - n = omega arith in rw small (omega (arith, power_pos (32 - n)))

show_ip-Lacks : (ip : Ipv4) → Lacks b'/' (show_ip ip)
unfolding show_ip
show_ip-Lacks (a, b, c, d) =
    let dot : (xs ys : Text) → Lacks b'/' xs → Lacks b'/' ys → Lacks b'/' (xs ++ b'.' ∷ ys) =
      λ xs ys h k. All-append _ xs (b'.' ∷ ys) h ((λ e. omega arith), k) in
    dot _ _ (show_dec-Lacks a)
      (dot _ _ (show_dec-Lacks b) (dot _ _ (show_dec-Lacks c) (show_dec-Lacks d)))

-- The first address of the subnet after the network's own.
unfoldable pub second_address : Ipv4 → ℕ → Ipv4
unfolding to_u32 of_u32
second_address ip n = of_u32 (to_u32 ip / 2 ^ (32 - n) * 2 ^ (32 - n) + 1)

first_host-second_address :
    (a b c d n : ℕ)
    → a < 256
    → b < 256
    → c < 256
    → d < 256
    → 1 ≤ n
    → n ≤ 30
    → first_host (a, b, c, d) n ≡ second_address (a, b, c, d) n
unfolding first_host second_address
first_host-second_address a b c d n ha hb hc hd l h =
    let x = to_u32 (a, b, c, d) in
    let k = 32 - n in
    let bound = u32_bound a b c d ha hb hc hd in
    let masked = bit_and-mask k 32 x (omega arith) bound in
    let q = x / 2 ^ k in
    let step : 2 ^ k ≡ 2 * 2 ^ (31 - n) = ap (λ (i : ℕ). 2 ^ i) (omega arith) ∙ doubled (31 - n) in
    let even : q * 2 ^ k ≡ 2 * (q * 2 ^ (31 - n)) = rw step (grind arith) in
    let part = div-add-mod' x (2 ^ k) in
    let whole : (q * 2 ^ k + 1) % 2 ^ 32 ≡ q * 2 ^ k + 1 = omega arith in
    rw (mask_lem n l h, masked, whole) refl

-- For an address of four bytes with a prefix length between 1 and 30, as the address dump writes
-- them, the inferred gateway is the network's own address plus one, in dotted decimals.
pub infer_gateway-second_address :
    (a b c d n : ℕ)
    → a < 256
    → b < 256
    → c < 256
    → d < 256
    → 1 ≤ n
    → n ≤ 30
    → infer_gateway (show_ip (a, b, c, d) ++ b'/' ∷ show_dec n)
      ≡ some (show_ip (second_address (a, b, c, d) n))
unfolding infer_gateway
infer_gateway-second_address a b c d n ha hb hc hd l h =
    let cut =
      split-append b'/' (show_ip (a, b, c, d)) (show_dec n) (show_ip-Lacks (a, b, c, d))
      ∙ ap (λ r. show_ip (a, b, c, d) ∷ r) (split-clean b'/' (show_dec n) (show_dec-Lacks n)) in
    let ip = parse_ipv4-show_ip a b c d ha hb hc hd in
    let prefix = parse_u32-show_dec n (omega arith) in
    let host = first_host-second_address a b c d n ha hb hc hd l h in
    rw (cut, ip, prefix) (ground arith)
