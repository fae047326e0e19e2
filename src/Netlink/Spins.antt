-- ===== src/Netlink/Spins.antt =====
-- netlink.rs `dump`: when the loop over the messages of a datagram goes on for ever.
use containerd_cloudhypervis.Common.{
  ℕ, zero, suc, ◌+◌, ◌-◌, ◌≤◌, ◌<◌, ◌≡◌, ◌≢◌, ◌↔◌, refl, sym, ap, ◌∙◌, true, false, List, [], ◌∷◌,
  Text, ok, err, drop, ◌==◌, leb, arith, inl, inr, Result-cases, Bool-cases,
}
use containerd_cloudhypervis.Netlink.Bytes.{panicked, spinning, u16_at, u32_at, i32_at, align4}
use containerd_cloudhypervis.Netlink.Scan.{error_at, gathered, scan_from, scan}

u32_at-ne-spinning : (r : Text) (o : ℕ) → u32_at r o ≢ err spinning
unfolding u32_at
u32_at-ne-spinning r o = four (drop o r)
  where
    four : (bs : Text) → u32_at bs 0 ≢ err spinning
    four [] e = cc
    four (a ∷ []) e = cc
    four (a ∷ b ∷ []) e = cc
    four (a ∷ b ∷ c ∷ []) e = cc
    four (a ∷ b ∷ c ∷ d ∷ bs) e = cc

u16_at-ne-spinning : (r : Text) (o : ℕ) → u16_at r o ≢ err spinning
unfolding u16_at
u16_at-ne-spinning r o = two (drop o r)
  where
    two : (bs : Text) → u16_at bs 0 ≢ err spinning
    two [] e = cc
    two (a ∷ []) e = cc
    two (a ∷ b ∷ bs) e = cc

error_at-ne-spinning : (r : Text) (off ty : ℕ) → error_at r off ty ≢ err spinning
unfolding error_at i32_at u32_at
error_at-ne-spinning r off ty h = ground (arith, u32_at-ne-spinning r (off + 16))

-- The loop gets past the header at an offset: it is inside the datagram, gives that length, and is
-- neither an NLMSG_DONE nor an error that is not zero.
abbrev pub Passes : Text → ℕ → ℕ → ℕ → Type 0
Passes r n off len =
    (off + 16 ≤ n)
    × (u32_at r off ≡ ok len)
    × ((ty : ℕ) × (u16_at r (off + 4) ≡ ok ty) × (ty ≢ 3) × (error_at r off ty ≡ ok 0))

-- The offsets that the loop comes to.
pub data Reached (r : Text) (n : ℕ) : ℕ → Type 0 where
  at_start : Reached r n 0
  after_message :
      {off : ℕ} (len : ℕ) → Reached r n off → Passes r n off len → Reached r n (off + align4 len)

-- The loop comes to a header that it gets past and that gives its length as zero.
abbrev pub Stuck : Text → ℕ → Type 0
Stuck r n = (off : ℕ) × Reached r n off × Passes r n off 0

-- A round that gets past a header.
round_past :
    (fuel : ℕ) (r : Text) (n off len : ℕ) (out : List Text)
    → Passes r n off len
    → scan_from (suc fuel) r n off out
      ≡ scan_from fuel r n (off + align4 len) (gathered r n off len out)
unfolding scan_from
round_past fuel r n off len out (room, len_eq, (ty, type, more, fine)) =
    let inside : leb (off + 16) n ≡ true = ground arith in
    let goes_on : (ty == 3) ≡ false = ground arith in rw (inside, len_eq, type, goes_on, fine) refl

-- The other way round, after the length has been read: a round that does not end the loop has got past
-- its header.
module _ (fuel : ℕ) (r : Text) (n off len : ℕ) (out : List Text) (inside : leb (off + 16) n ≡ true)
    (len_eq : u32_at r off ≡ ok len) where
  round_goes_on : scan_from (suc fuel) r n off out ≡ err spinning → Passes r n off len
  unfolding scan_from
  round_goes_on e = elim (Result-cases (u16_at r (off + 4))) [
    | inr (panicked, type) ↦ cc (rw (inside, len_eq, type) at e)
    | inr (spinning, type) ↦ absurd (u16_at-ne-spinning r (off + 4) type)
    | inl (ty, type) ↦ elim (Bool-cases (ty == 3)) [
      | inl end ↦ cc (rw (inside, len_eq, type, end) at e)
      | inr more ↦ elim (Result-cases (error_at r off ty)) [
        | inr (panicked, bad) ↦ cc (rw (inside, len_eq, type, more, bad) at e)
        | inr (spinning, bad) ↦ absurd (error_at-ne-spinning r off ty bad)
        | inl (x, read) ↦ elim (Bool-cases (x == 0)) [
          | inr refuses ↦ cc (rw (inside, len_eq, type, more, read, refuses) at e)
          | inl fine ↦
              let zero_code : x ≡ 0 = ground arith in
              (ground arith, len_eq, (ty, type, ground arith, read ∙ ap ok zero_code))
        ]
      ]
    ]
  ]

past_end-ne-spinning :
    (fuel : ℕ) (r : Text) (n off : ℕ) (out : List Text)
    → leb (off + 16) n ≡ false
    → scan_from (suc fuel) r n off out ≢ err spinning
unfolding scan_from
past_end-ne-spinning fuel r n off out past e = cc (rw past at e)

no_length-ne-spinning :
    (fuel : ℕ) (r : Text) (n off : ℕ) (out : List Text)
    → leb (off + 16) n ≡ true
    → u32_at r off ≡ err panicked
    → scan_from (suc fuel) r n off out ≢ err spinning
unfolding scan_from
no_length-ne-spinning fuel r n off out inside bad e = cc (rw (inside, bad) at e)

-- A loop that still goes on after a round for each byte that is left has come to such a header.
scan_from-Stuck :
    (fuel : ℕ) (r : Text) (n off : ℕ) (out : List Text)
    → n - off < fuel
    → Reached r n off
    → scan_from fuel r n off out ≡ err spinning
    → Stuck r n
scan_from-Stuck zero r n off out h came e = absurd (omega arith)
scan_from-Stuck (suc fuel) r n off out h came e = elim (Bool-cases (leb (off + 16) n)) [
  | inr past ↦ absurd (past_end-ne-spinning fuel r n off out past e)
  | inl inside ↦ elim (Result-cases (u32_at r off)) [
    | inr (panicked, len) ↦ absurd (no_length-ne-spinning fuel r n off out inside len e)
    | inr (spinning, len) ↦ absurd (u32_at-ne-spinning r off len)
    | inl (zero, len) ↦ (off, came, round_goes_on fuel r n off 0 out inside len e)
    | inl (suc len, len_eq) ↦
        let passes = round_goes_on fuel r n off (suc len) out inside len_eq e in
        scan_from-Stuck fuel r n (off + align4 (suc len)) (gathered r n off (suc len) out)
          (ground arith) (after_message (suc len) came passes)
          (sym (round_past fuel r n off (suc len) out passes) ∙ e)
  ]
]

-- A header of length zero is never left.
stuck_spins :
    (r : Text) (n off : ℕ)
    → Passes r n off 0
    → (fuel : ℕ) (out : List Text) → scan_from fuel r n off out ≡ err spinning
stuck_spins r n off passes zero out = unfold scan_from in refl
stuck_spins r n off passes (suc fuel) out =
    let here : off + align4 0 ≡ off = omega arith in
    round_past fuel r n off 0 out passes
    ∙ rw here (stuck_spins r n off passes fuel (gathered r n off 0 out))

-- What is never left from an offset that the loop comes to is never left from the start.
Reached-spins :
    (r : Text) (n : ℕ) {off : ℕ}
    → Reached r n off
    → ((fuel : ℕ) (out : List Text) → scan_from fuel r n off out ≡ err spinning)
    → (fuel : ℕ) (out : List Text) → scan_from fuel r n 0 out ≡ err spinning
Reached-spins r n at_start spins = spins
Reached-spins r n (after_message {off} len came passes) spins = Reached-spins r n came earlier
  where
    earlier : (fuel : ℕ) (out : List Text) → scan_from fuel r n off out ≡ err spinning
    earlier zero out = unfold scan_from in refl
    earlier (suc fuel) out =
        round_past fuel r n off len out passes ∙ spins fuel (gathered r n off len out)

-- The loop over the messages of a datagram goes on for ever exactly if it comes, message by message,
-- to a header that it gets past and that gives its length as zero; on every other datagram it ends
-- after at most a round for each byte and one more. From such a datagram no number of rounds is
-- enough.
pub scan-Stuck :
    (r : Text) (n : ℕ) (out : List Text)
    → ((scan r n out ≡ err spinning) ↔ Stuck r n)
      × (Stuck r n → (fuel : ℕ) → scan_from fuel r n 0 out ≡ err spinning)
unfolding scan
scan-Stuck r n out =
    ((scan_from-Stuck (suc n) r n 0 out (omega arith) at_start, from_stuck), for_ever)
  where
    for_ever : Stuck r n → (fuel : ℕ) → scan_from fuel r n 0 out ≡ err spinning
    for_ever (off, came, passes) fuel = Reached-spins r n came (stuck_spins r n off passes) fuel out

    from_stuck : Stuck r n → scan r n out ≡ err spinning
    from_stuck stuck = for_ever stuck (suc n)
