-- ===== src/Netlink/Answers.antt =====
-- netlink.rs `dump` on the answers of a kernel: what comes back, and when nothing does.
use containerd_cloudhypervis.Common.{
  ℕ, zero, suc, ◌≤◌, ◌<◌, ◌≡◌, refl, ap, ◌∙◌, List, [], ◌∷◌, ◌++◌, map, Text, length, take, drop,
  replicate, length-append, length-drop, Result, ok, arith, All,
}
use mathlib.Core.List.{append_assoc, map-append}
use containerd_cloudhypervis.Netlink.Scan.{Scan, finished, wants_more, scan}
use containerd_cloudhypervis.Netlink.Encoding.{length-replicate}
use containerd_cloudhypervis.Netlink.Socket.{Socket, done, recv_buf, ◌>>=◌, send_lem}
use containerd_cloudhypervis.Netlink.Dump.{after_scan, dump_from, dump}
use containerd_cloudhypervis.Netlink.Dumped.{
  Message, message, Fits, IsMessage, packed, datagram, scan-datagram, scan-last,
}

take-past : (n : ℕ) (xs : Text) → length xs ≤ n → take n xs ≡ xs
take-past zero [] h = refl
take-past zero (x ∷ xs) h = absurd (omega arith)
take-past (suc n) [] h = refl
take-past (suc n) (x ∷ xs) h = ap (λ r. x ∷ r) (take-past n xs (omega arith))

-- A datagram that the buffer has room for, over what stood in the buffer before.
pub recv_buf_lem :
    (buf d : Text) (rest : List (Result ℕ Text)) (s : Socket)
    → s.inbox ≡ ok d ∷ rest
    → length d ≤ length buf
    → recv_buf buf s ≡ done (d ++ drop (length d) buf, length d) (record s { inbox = rest })
unfolding recv_buf
recv_buf_lem buf d rest s e h = rw (e, recv_buf, take-past (length buf) d h) refl

-- The buffer keeps its size.
length-filled :
    (d buf : Text) → length d ≤ length buf → length (d ++ drop (length d) buf) ≡ length buf
length-filled d buf h =
    omega (arith, length-append d (drop (length d) buf), length-drop (length d) buf)

abbrev buffer_size : ℕ
buffer_size = 32768

-- One datagram: messages only, and no more bytes than the buffer has.
abbrev pub IsPart : List Message → Type 0
IsPart ms = All IsMessage ms × (length (datagram ms) ≤ 32768)

abbrev pub gather : List (List Message) → List Message
gather [] = []
gather (ms ∷ parts) = ms ++ gather parts

-- What the kernel sends: datagrams of messages, the last of which ends with NLMSG_DONE.
abbrev pub answer :
    List (List Message) → List Message → Text → List (Result ℕ Text) → List (Result ℕ Text)
answer [] last end rest = ok (datagram last ++ packed (3, end)) ∷ rest
answer (ms ∷ parts) last end rest = ok (datagram ms) ∷ answer parts last end rest

scan-last_datagram :
    (ms : List Message) (end tail : Text) (out : List Text)
    → All IsMessage ms
    → Fits (3, end)
    → scan ((datagram ms ++ packed (3, end)) ++ tail) (length (datagram ms ++ packed (3, end))) out
      ≡ ok (finished (out ++ map message ms))
scan-last_datagram ms end tail out part fits =
    rw
      (
        append_assoc (datagram ms) (packed (3, end)) tail,
        length-append (datagram ms) (packed (3, end)),
      )
      (scan-last ms end tail out part fits)

module _ (io_text : ℕ → Text) where
  dump_from_step :
      (fuel : ℕ) (r : Text) (out : List Text) (r' : Text) (n : ℕ) (found : Scan) (s t : Socket)
      → recv_buf r s ≡ done (r', n) t
      → scan r' n out ≡ ok found
      → dump_from io_text (suc fuel) r out s
        ≡ after_scan io_text found (dump_from io_text fuel r') t
  unfolding dump_from
  dump_from_step fuel r out r' n found s t e e' = rw (e, ◌>>=◌) (rw e' refl)

  dump_from_part :
      (fuel : ℕ) (r : Text) (out : List Text) (ms : List Message) (rest : List (Result ℕ Text))
      (s : Socket)
      → s.inbox ≡ ok (datagram ms) ∷ rest
      → IsPart ms
      → length r ≡ buffer_size
      → dump_from io_text (suc fuel) r out s
        ≡ dump_from io_text fuel
            (datagram ms ++ drop (length (datagram ms)) r)
            (out ++ map message ms)
            (record s { inbox = rest })
  unfolding after_scan
  dump_from_part fuel r out ms rest s e part size =
      dump_from_step fuel r out (datagram ms ++ drop (length (datagram ms)) r)
        (length (datagram ms)) (wants_more (out ++ map message ms)) s (record s { inbox = rest })
        (recv_buf_lem r (datagram ms) rest s e (omega arith))
        (scan-datagram ms (drop (length (datagram ms)) r) out part.0)

  dump_from_last :
      (fuel : ℕ) (r : Text) (out : List Text) (ms : List Message) (end : Text)
      (rest : List (Result ℕ Text)) (s : Socket)
      → s.inbox ≡ ok (datagram ms ++ packed (3, end)) ∷ rest
      → All IsMessage ms
      → Fits (3, end)
      → length (datagram ms ++ packed (3, end)) ≤ buffer_size
      → length r ≡ buffer_size
      → dump_from io_text (suc fuel) r out s
        ≡ done (out ++ map message ms) (record s { inbox = rest })
  unfolding after_scan
  dump_from_last fuel r out ms end rest s e part fits room size =
      let d = datagram ms ++ packed (3, end) in
      dump_from_step fuel r out (d ++ drop (length d) r) (length d)
        (finished (out ++ map message ms)) s (record s { inbox = rest })
        (recv_buf_lem r d rest s e (omega arith))
        (scan-last_datagram ms end (drop (length d) r) out part fits)

  dump_from-answer :
      (parts : List (List Message)) (fuel : ℕ) (r : Text) (out : List Text) (last : List Message)
      (end : Text) (rest : List (Result ℕ Text)) (s : Socket)
      → s.inbox ≡ answer parts last end rest
      → All IsPart parts
      → All IsMessage last
      → Fits (3, end)
      → length (datagram last ++ packed (3, end)) ≤ buffer_size
      → length r ≡ buffer_size
      → length parts < fuel
      → dump_from io_text fuel r out s
        ≡ done (out ++ map message (gather parts ++ last)) (record s { inbox = rest })
  dump_from-answer parts zero r out last end rest s e ps l fits room size h = absurd (omega arith)
  dump_from-answer [] (suc fuel) r out last end rest s e ps l fits room size h =
      dump_from_last fuel r out last end rest s e l fits room size
  dump_from-answer (ms ∷ parts) (suc fuel) r out last end rest s e ps l fits room size h =
      dump_from_part fuel r out ms (answer parts last end rest) s e ps.0 size
      ∙ dump_from-answer parts fuel (datagram ms ++ drop (length (datagram ms)) r)
          (out ++ map message ms) last end rest (record s { inbox = answer parts last end rest })
          refl ps.1 l fits room (omega (arith, length-filled (datagram ms) r)) (omega arith)
      ∙ rw
          (
            append_assoc ms (gather parts) last,
            map-append message ms (gather parts ++ last),
            append_assoc out (map message ms) (map message (gather parts ++ last)),
          )
          refl

  length-answer :
      (parts : List (List Message)) (last : List Message) (end : Text) (rest : List (Result ℕ Text))
      → length parts < length (answer parts last end rest)
  length-answer [] last end rest = omega arith
  length-answer (ms ∷ parts) last end rest = omega (arith, length-answer parts last end rest)

  -- A dump gives the messages of all datagrams up to the one with NLMSG_DONE, each whole, without
  -- its padding, and in the order in which they came, and it leaves what comes after that
  -- datagram to be read.
  pub dump-answer :
      (buf : Text) (parts : List (List Message)) (last : List Message) (end : Text)
      (rest : List (Result ℕ Text)) (s : Socket)
      → s.refusals ≡ []
      → s.inbox ≡ answer parts last end rest
      → All IsPart parts
      → All IsMessage last
      → Fits (3, end)
      → length (datagram last ++ packed (3, end)) ≤ 32768
      → dump io_text buf s
        ≡ done
            (map message (gather parts ++ last))
            (record s { sent = s.sent ++ buf ∷ []; inbox = rest })
  unfolding dump
  dump-answer buf parts last end rest s quiet e ps l fits room =
      let fuel = suc (length s.inbox) in
      rw (send_lem buf s quiet, ◌>>=◌)
        (dump_from-answer parts fuel (replicate 32768 0) [] last end rest
          (record s { sent = s.sent ++ buf ∷ [] }) e ps l fits room (length-replicate 32768 0)
          (omega (arith, length-answer parts last end rest, ap length e)))
