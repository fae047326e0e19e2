-- ===== src/Daemon/Names.antt =====
-- The texts that api.rs puts together and takes apart: TAP names and addresses.
use containerd_cloudhypervis.Common.{
  ℕ, zero, suc, ◌+◌, ◌-◌, ◌*◌, ◌/◌, ◌%◌, ◌^◌, ◌<◌, ◌≤◌, ◌≡◌, ◌≢◌, refl, sym, ap, ◌∙◌, Bool, some,
  [], ◌∷◌, ◌++◌, Text, codes, show_dec, show_from, arith, Bool-cases, inl, inr, ltb, length,
  take-append, All, All-append, Lacks,
}
use containerd_cloudhypervis.Pool.State.{pool_id}
use containerd_cloudhypervis.Daemon.State.{Daemon, configure_network}
use containerd_cloudhypervis.Daemon.Network.{
  tap_name, parse_digits, parse_u32, before_slash, after_slash, prefix_or_24,
  configure_guest_network,
}

-- Under a daemon whose pid has three digits or more, all VMs of the pool get one and the same TAP
-- name.
pub tap_name-pool_id :
    (pid a b : ℕ) → 3 ≤ length (show_dec pid) → tap_name (pool_id pid a) ≡ tap_name (pool_id pid b)
unfolding tap_name pool_id
tap_name-pool_id pid a b h =
    ap (λ (x : Text). codes "tap_pool-" ++ x)
      (take-append 3 (show_dec pid) (b'-' ∷ show_dec a) h
        ∙ sym (take-append 3 (show_dec pid) (b'-' ∷ show_dec b) h))

parse_digits-append :
    (acc c m : ℕ) (xs : Text)
    → parse_digits acc xs ≡ some m
    → b'0' ≤ c
    → c ≤ b'9'
    → m * 10 + (c - b'0') < 2 ^ 32
    → parse_digits acc (xs ++ c ∷ []) ≡ some (m * 10 + (c - b'0'))
unfolding parse_digits
parse_digits-append acc c m [] e h k l = ground arith
parse_digits-append acc c m (x ∷ xs) e h k l =
    ground (arith, parse_digits-append (acc * 10 + (x - b'0')) c m xs)

parse_digits-show_from : (f n : ℕ) → n < f → n < 2 ^ 32 → parse_digits 0 (show_from f n) ≡ some n
unfolding show_from parse_digits
parse_digits-show_from zero n h k = absurd (omega arith)
parse_digits-show_from (suc f) n h k = ground (
  arith,
  parse_digits-append 0 (b'0' + n % 10) (n / 10) (show_from f (n / 10)),
  parse_digits-show_from f (n / 10),
)

parse_u32-digits :
    (xs : Text) (m : ℕ) → xs ≢ [] → parse_digits 0 xs ≡ some m → parse_u32 xs ≡ some m
unfolding parse_u32 parse_digits
parse_u32-digits [] m n e = absurd (n refl)
parse_u32-digits (x ∷ []) m n e = ground arith
parse_u32-digits (x ∷ y ∷ xs) m n e = ground arith

append-nonempty : (xs ys : Text) (c : ℕ) → xs ++ c ∷ ys ≢ []
append-nonempty [] ys c e = ground arith
append-nonempty (x ∷ xs) ys c e = ground arith

show_dec-nonempty : (n : ℕ) → show_dec n ≢ []
unfolding show_dec show_from
show_dec-nonempty n e = ground (arith, append-nonempty (show_from n (n / 10)) [] (b'0' + n % 10))

-- A number that fits in 32 bits is read back from its decimal form.
pub parse_u32-show_dec : (n : ℕ) → n < 2 ^ 32 → parse_u32 (show_dec n) ≡ some n
unfolding show_dec
parse_u32-show_dec n h =
    parse_u32-digits (show_dec n) n (show_dec-nonempty n)
      (parse_digits-show_from (suc n) n (omega arith) h)

before_slash-append : (ip xs : Text) → All (λ c. c ≢ b'/') ip → before_slash (ip ++ b'/' ∷ xs) ≡ ip
unfolding before_slash
before_slash-append [] xs h = refl
before_slash-append (c ∷ ip) xs h = ground (arith, before_slash-append ip xs h.1)

before_slash_self : (ip : Text) → All (λ c. c ≢ b'/') ip → before_slash ip ≡ ip
unfolding before_slash
before_slash_self [] h = refl
before_slash_self (c ∷ ip) h = ground (arith, before_slash_self ip h.1)

after_slash-append :
    (ip xs : Text) → All (λ c. c ≢ b'/') ip → after_slash (ip ++ b'/' ∷ xs) ≡ some (before_slash xs)
unfolding after_slash
after_slash-append [] xs h = refl
after_slash-append (c ∷ ip) xs h = ground (arith, after_slash-append ip xs h.1)

show_from-Lacks : (d f n : ℕ) → d < b'0' → Lacks d (show_from f n)
unfolding show_from
show_from-Lacks d zero n h = tt
show_from-Lacks d (suc f) n h =
    let front =
      All-append _ (show_from f (n / 10)) ((b'0' + n % 10) ∷ []) (show_from-Lacks d f (n / 10) h)
        (omega arith, tt) in
    elim (Bool-cases (ltb n 10)) [ inl e ↦ rw e (omega arith, tt) | inr e ↦ rw e front ]

show_from-digits : (f n : ℕ) → All (λ d. d ≢ b'/') (show_from f n)
show_from-digits f n = show_from-Lacks b'/' f n (omega arith)

-- The digits of a number have no byte below that of 0 among them.
pub show_dec-Lacks_below : (d n : ℕ) → d < b'0' → Lacks d (show_dec n)
unfolding show_dec
show_dec-Lacks_below d n h = show_from-Lacks d (suc n) n h

pub show_dec-Lacks : (n : ℕ) → Lacks b'/' (show_dec n)
unfolding show_dec
show_dec-Lacks n = show_from-digits (suc n) n

-- The address that the probe of the pod's namespace writes as `ip/prefix`, with no slash in the ip
-- and a prefix length below 2^32, reaches the guest's agent as exactly this address and this
-- prefix length, and the gateway unchanged.
pub configure_guest_network-sent :
    (agent ip gateway : Text) (n : ℕ) (answered : Bool) (s : Daemon)
    → All (λ c. c ≢ b'/') ip
    → n < 2 ^ 32
    → (configure_guest_network agent (ip ++ b'/' ∷ show_dec n) gateway answered s).1.sent
      ≡ configure_network agent ip n gateway ∷ s.sent
unfolding configure_guest_network prefix_or_24 show_dec
configure_guest_network-sent agent ip gateway n answered s h k =
    let digits = show_from-digits (suc n) n in
    let ip_part = before_slash-append ip (show_dec n) h in
    let prefix_part = after_slash-append ip (show_dec n) h in
    ground
      (arith, ip_part, prefix_part, before_slash_self (show_dec n) digits, parse_u32-show_dec n k)
