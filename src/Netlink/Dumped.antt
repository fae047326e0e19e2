-- ===== src/Netlink/Dumped.antt =====
-- Dumps: the messages of well-formed datagrams are gathered in their order, and a message that
-- gives its length as zero is read for ever.
use containerd_cloudhypervis.Common.{
  ℕ, suc, ◌+◌, ◌-◌, ◌≤◌, ◌<◌, ◌≡◌, ◌≢◌, refl, sym, ap, ◌∙◌, true, false, List, [], ◌∷◌, ◌++◌, map,
  Text, length, take, drop, length-append, drop-append, ok, leb, ◌==◌, arith, All,
}
use mathlib.Core.List.{append_assoc, append-nil}
use containerd_cloudhypervis.Netlink.Bytes.{u16_bytes, u32_bytes, u16_at, u32_at, align4}
use containerd_cloudhypervis.Netlink.Scan.{
  finished, wants_more, error_at, gathered, scan_from, scan,
}
use containerd_cloudhypervis.Netlink.Encoding.{
  padding, drop-past_front, take-front, length-replicate,
}

-- The type of a message and what follows it: flags, sequence number, port and body.
abbrev pub Message : Type 0
Message = ℕ × Text

unfoldable pub message : Message → Text
message (ty, rest) = u32_bytes (6 + length rest) ++ (u16_bytes ty ++ rest)

-- The numbers fit into their fields, and the header of 16 bytes is there.
abbrev pub Fits : Message → Type 0
Fits (ty, rest) = (ty < 65536) × (10 ≤ length rest) × (6 + length rest < 4294967296)

-- A message of an answer, neither an error nor the last one.
abbrev pub IsMessage : Message → Type 0
IsMessage (ty, rest) = Fits (ty, rest) × (ty ≢ 2) × (ty ≢ 3)

unfoldable pub packed : Message → Text
packed m = message m ++ padding (length (message m))

unfoldable pub datagram : List Message → Text
datagram [] = []
datagram (m ∷ ms) = packed m ++ datagram ms

length-message : (m : Message) → length (message m) ≡ 6 + length m.1
unfolding message
length-message (ty, rest) = omega arith

length-packed : (m : Message) → length (packed m) ≡ align4 (6 + length m.1)
unfolding packed
length-packed m = omega (
  arith,
  length-message m,
  length-append (message m) (padding (length (message m))),
  length-replicate (align4 (length (message m)) - length (message m)) 0,
)

error_at-none : (r : Text) (off ty : ℕ) → ty ≢ 2 → error_at r off ty ≡ ok 0
unfolding error_at
error_at-none r off ty h = ground arith

module _ (pre tail : Text) (ty : ℕ) (rest : Text) (fits : Fits (ty, rest)) where
  len_read : u32_at (pre ++ (packed (ty, rest) ++ tail)) (length pre) ≡ ok (6 + length rest)
  unfolding u32_at packed message
  len_read = rw (drop-append pre (packed (ty, rest) ++ tail)) (ap ok (omega arith))

  type_read : u16_at (pre ++ (packed (ty, rest) ++ tail)) (length pre + 4) ≡ ok ty
  unfolding u16_at packed message
  type_read = rw (drop-past_front pre (packed (ty, rest) ++ tail) 4) (ap ok (omega arith))

  message_read :
      take (6 + length rest) (drop (length pre) (pre ++ (packed (ty, rest) ++ tail)))
      ≡ message (ty, rest)
  unfolding packed
  message_read =
      rw
        (
          drop-append pre (packed (ty, rest) ++ tail),
          append_assoc (message (ty, rest)) (padding (length (message (ty, rest)))) tail,
          sym (length-message (ty, rest)),
        )
        (take-front (message (ty, rest)) (padding (length (message (ty, rest))) ++ tail))

  next_message : length pre + align4 (6 + length rest) ≡ length (pre ++ packed (ty, rest))
  next_message = omega (arith, length-append pre (packed (ty, rest)), length-packed (ty, rest))

  gathered-message :
      (n : ℕ) (out : List Text)
      → length pre + length (packed (ty, rest)) ≤ n
      → gathered (pre ++ (packed (ty, rest) ++ tail)) n (length pre) (6 + length rest) out
        ≡ out ++ message (ty, rest) ∷ []
  unfolding gathered
  gathered-message n out h = rw message_read (ground (arith, length-packed (ty, rest)))

  room : (n : ℕ) → length pre + length (packed (ty, rest)) ≤ n → leb (length pre + 16) n ≡ true
  room n h = ground (arith, length-packed (ty, rest))

  scan_step :
      (fuel n : ℕ) (out : List Text)
      → length pre + length (packed (ty, rest)) ≤ n
      → ty ≢ 2
      → ty ≢ 3
      → scan_from (suc fuel) (pre ++ (packed (ty, rest) ++ tail)) n (length pre) out
        ≡ scan_from fuel
            ((pre ++ packed (ty, rest)) ++ tail)
            n
            (length (pre ++ packed (ty, rest)))
            (out ++ message (ty, rest) ∷ [])
  unfolding scan_from
  scan_step fuel n out h no_error no_end =
      let is_no_end : (ty == 3) ≡ false = ground arith in
      rw (sym next_message, append_assoc pre (packed (ty, rest)) tail, room n h) rw
        (len_read, type_read, is_no_end, error_at-none _ (length pre) ty no_error) rw
        (gathered-message n out h) refl

  scan_end :
      (fuel n : ℕ) (out : List Text)
      → length pre + length (packed (ty, rest)) ≤ n
      → ty ≡ 3
      → scan_from (suc fuel) (pre ++ (packed (ty, rest) ++ tail)) n (length pre) out
        ≡ ok (finished out)
  unfolding scan_from
  scan_end fuel n out h end =
      let is_end : (ty == 3) ≡ true = ground arith in
      rw (room n h, len_read, type_read, is_end) refl

-- The loop at the end of the messages of a datagram that go on with others.
scan_from-datagram :
    (fuel n : ℕ) (pre tail : Text) (ms : List Message) (out : List Text)
    → All IsMessage ms
    → length pre + length (datagram ms) ≤ n
    → scan_from (length ms + fuel) (pre ++ (datagram ms ++ tail)) n (length pre) out
      ≡ scan_from fuel
          ((pre ++ datagram ms) ++ tail)
          n
          (length (pre ++ datagram ms))
          (out ++ map message ms)
unfolding datagram
scan_from-datagram fuel n pre tail [] out fits h =
    let e : 0 + fuel ≡ fuel = omega arith in rw (e, append-nil pre, append-nil out) refl
scan_from-datagram fuel n pre tail ((ty, rest) ∷ ms) out fits h =
    let e : length ((ty, rest) ∷ ms) + fuel ≡ suc (length ms + fuel) = omega arith in
    let sum = length-append (packed (ty, rest)) (datagram ms) in
    rw (e, append_assoc (packed (ty, rest)) (datagram ms) tail)
      (scan_step pre (datagram ms ++ tail) ty rest fits.0.0 (length ms + fuel) n out (omega arith)
          fits.0.1 fits.0.2
        ∙ scan_from-datagram fuel n (pre ++ packed (ty, rest)) tail ms
            (out ++ message (ty, rest) ∷ []) fits.1
            (omega (arith, length-append pre (packed (ty, rest))))
        ∙ rw
            (
              append_assoc pre (packed (ty, rest)) (datagram ms),
              append_assoc out (message (ty, rest) ∷ []) (map message ms),
            )
            refl)

length-datagram : (ms : List Message) → length ms ≤ length (datagram ms)
unfolding datagram
length-datagram [] = omega arith
length-datagram (m ∷ ms) =
    omega (arith, length-datagram ms, length-append (packed m) (datagram ms), length-packed m)

-- Enough fuel is left after the messages of a datagram.
fuel_left :
    (ms : List Message) (n : ℕ) → length (datagram ms) ≤ n → suc n ≡ length ms + suc (n - length ms)
fuel_left ms n h = omega (arith, length-datagram ms)

stops_at_end :
    (fuel : ℕ) (r : Text) (n off : ℕ) (out : List Text)
    → n ≡ off
    → scan_from (suc fuel) r n off out ≡ ok (wants_more out)
unfolding scan_from
stops_at_end fuel r n off out h = ground arith

pub scan-datagram :
    (ms : List Message) (tail : Text) (out : List Text)
    → All IsMessage ms
    → scan (datagram ms ++ tail) (length (datagram ms)) out
      ≡ ok (wants_more (out ++ map message ms))
unfolding scan
scan-datagram ms tail out fits =
    let n = length (datagram ms) in
    ap (λ k. scan_from k (datagram ms ++ tail) n 0 out) (fuel_left ms n (omega arith))
    ∙ scan_from-datagram (suc (n - length ms)) n [] tail ms out fits (omega arith)
    ∙ stops_at_end (n - length ms) (datagram ms ++ tail) n n (out ++ map message ms) refl

pub scan-last :
    (ms : List Message) (rest tail : Text) (out : List Text)
    → All IsMessage ms
    → Fits (3, rest)
    → scan
        (datagram ms ++ (packed (3, rest) ++ tail))
        (length (datagram ms) + length (packed (3, rest)))
        out
      ≡ ok (finished (out ++ map message ms))
unfolding scan
scan-last ms rest tail out fits last =
    let n = length (datagram ms) + length (packed (3, rest)) in
    ap (λ k. scan_from k (datagram ms ++ (packed (3, rest) ++ tail)) n 0 out)
      (fuel_left ms n (omega arith))
    ∙ scan_from-datagram (suc (n - length ms)) n [] (packed (3, rest) ++ tail) ms out fits
        (omega arith)
    ∙ scan_end (datagram ms) tail 3 rest last (n - length ms) n (out ++ map message ms)
        (omega arith) refl
