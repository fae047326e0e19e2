-- ===== src/Netlink/Socket.antt =====
-- netlink.rs: the socket, a request with its answer, and the dump that gathers the messages of
-- several datagrams.
use containerd_cloudhypervis.Common.{
  ℕ, ◌+◌, ◌^◌, ◌%◌, ◌≡◌, refl, Option, none, some, List, [], ◌∷◌, ◌++◌, Text, codes, length, take,
  drop, replicate, Result, ok, err, leb, ◌==◌, if◌then◌else◌,
}
use containerd_cloudhypervis.Netlink.Bytes.{Fault, R, u16_at, i32_at, negated}

-- An error as `anyhow` keeps it: the text that it shows, and the number of an `io::Error` that it
-- was made of. An errno is a bit pattern of 32 bits.
pub record NlError : Type 0 where
  pub shown : Text
  pub io : Option ℕ

-- The socket and what the kernel does with it: for each coming `send` the errno that it fails with
-- (`none`, and the sends past the end of the list, are accepted), and for each coming `recv` its
-- datagram or errno.
pub record Socket : Type 0 where
  pub seq : ℕ
  pub sent : List Text
  pub refusals : List (Option ℕ)
  pub inbox : List (Result ℕ Text)

-- A call returns, with or without an error, waits for a datagram that does not come, or stops by a
-- fault.
pub data Outcome (A : Type 0) : Type 0 where
  done : A → Socket → Outcome A
  failed : NlError → Socket → Outcome A
  blocked : Outcome A
  stops : Fault → Outcome A

abbrev pub M : Type 0 → Type 0
M A = Socket → Outcome A

infixl 5 ◌>>=◌ ◌>>◌
abbrev pub ◌>>=◌ : {A B : Type 0} → M A → (A → M B) → M B
◌>>=◌ m f s = elim (m s) [
  | done a t ↦ f a t
  | failed e t ↦ failed e t
  | blocked ↦ blocked
  | stops f' ↦ stops f'
]

abbrev pub ◌>>◌ : {A B : Type 0} → M A → M B → M B
m >> k = m >>= (λ _. k)

abbrev pub pure : {A : Type 0} → A → M A
pure a s = done a s

abbrev pub fail : {A : Type 0} → NlError → M A
fail e s = failed e s

-- A computation on buffers inside of a call.
abbrev pub lift : {A : Type 0} → R A → M A
lift (ok a) s = done a s
lift (err f) s = stops f

unfoldable pub next_seq : M ℕ
next_seq s = done s.seq (record s { seq = (s.seq + 1) % 2 ^ 32 })

abbrev io_error : Text → ℕ → NlError
io_error context e = record { shown = context; io = some e }

send_result : List (Option ℕ) → Text → Socket → Outcome (Unit {0})
send_result [] buf s = done tt (record s { sent = s.sent ++ buf ∷ [] })
send_result (none ∷ rest) buf s = done tt (record s { sent = s.sent ++ buf ∷ []; refusals = rest })
send_result (some e ∷ rest) buf s =
    failed (io_error (codes "nl send") e) (record s { refusals = rest })

unfoldable pub send : Text → M (Unit {0})
unfolding send_result
send buf s = send_result s.refusals buf s

-- The buffer after a datagram, which a buffer too small cuts off, and how much of it is new.
recv_result : List (Result ℕ Text) → Text → Socket → Outcome (Text × ℕ)
recv_result [] buf s = blocked
recv_result (ok d ∷ rest) buf s =
    let got = take (length buf) d in
    done (got ++ drop (length got) buf, length got) (record s { inbox = rest })
recv_result (err e ∷ rest) buf s = failed (io_error (codes "nl recv") e) (record s { inbox = rest })

unfoldable pub recv_buf : Text → M (Text × ℕ)
unfolding recv_result
recv_buf buf s = recv_result s.inbox buf s

-- The error number of an NLMSG_ERROR at the start of the buffer; zero for any other message.
unfoldable pub error_in : Text → ℕ → M ℕ
unfolding u16_at i32_at
error_in r n =
    if leb 20 n
    then (lift (u16_at r 4) >>= (λ ty. if ty == 2 then lift (i32_at r 16) else pure 0))
    else pure 0

unfoldable pub request : Text → M (Unit {0})
request buf = do
  send buf
  (r, n) ← recv_buf (replicate 4096 0)
  e ← error_in r n
  if e == 0 then pure tt else fail (io_error (codes "netlink request") (negated e))

-- A call after one that returned.
pub bind_done :
    {A B : Type 0} (m : M A) (f : A → M B) (s : Socket) {a : A} {t : Socket}
    → m s ≡ done a t
    → (m >>= f) s ≡ f a t
bind_done m f s e = rw (e, ◌>>=◌) refl

pub bind_failed :
    {A B : Type 0} (m : M A) (f : A → M B) (s : Socket) {e : NlError} {t : Socket}
    → m s ≡ failed e t
    → (m >>= f) s ≡ failed e t
bind_failed m f s e = rw (e, ◌>>=◌) refl

pub lift_ok : {A : Type 0} (r : R A) (s : Socket) {a : A} → r ≡ ok a → lift r s ≡ done a s
lift_ok r s e = rw e refl

pub send_lem :
    (buf : Text) (s : Socket)
    → s.refusals ≡ []
    → send buf s ≡ done tt (record s { sent = s.sent ++ buf ∷ [] })
unfolding send
send_lem buf s e = rw (e, send) refl
