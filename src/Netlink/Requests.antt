-- ===== src/Netlink/Requests.antt =====
-- netlink.rs: a request and its answer, and the bytes of the query for a link.
use containerd_cloudhypervis.Common.{
  ℕ, zero, suc, ◌+◌, ◌-◌, ◌≤◌, ◌≡◌, refl, sym, ap, ◌∙◌, true, some, List, [], ◌∷◌, ◌++◌, Text,
  Result, ok, take, drop, length, length-append, length-drop, drop-append, take-append, replicate,
  ◌==◌, Bool-cases, inl, inr, leb, if◌then◌else◌, arith,
}
use mathlib.Core.List.{append_assoc, append-nil}
use containerd_cloudhypervis.Netlink.Bytes.{
  u16_at, i32_at, align4, negated, u16_bytes, u32_bytes, write_at, nlhdr, put_nla, link_query,
}
use containerd_cloudhypervis.Netlink.Encoding.{
  drop-past_front, take-front, nla, nlas, padding, length-replicate,
}
use containerd_cloudhypervis.Netlink.Socket.{
  NlError, Socket, done, failed, ◌>>=◌, send_lem, error_in, request,
}
use containerd_cloudhypervis.Netlink.Answers.{recv_buf_lem}
use containerd_cloudhypervis.Common.{codes}

drop-append_le : (o : ℕ) (a x : Text) → o ≤ length a → drop o (a ++ x) ≡ drop o a ++ x
drop-append_le zero a x h = refl
drop-append_le (suc o) [] x h = absurd (omega arith)
drop-append_le (suc o) (b ∷ a) x h = drop-append_le o a x (omega arith)

-- What is read inside of the bytes that came is not changed by what stands behind them.
pub u16_at-append : (a x : Text) (o : ℕ) → o + 2 ≤ length a → u16_at (a ++ x) o ≡ u16_at a o
unfolding u16_at
u16_at-append a x o h =
    rw (drop-append_le o a x (omega arith)) (two (drop o a) (omega (arith, length-drop o a)))
  where
    two : (bs : Text) → 2 ≤ length bs → u16_at (bs ++ x) 0 ≡ u16_at bs 0
    two [] h = absurd (omega arith)
    two (b ∷ []) h = absurd (omega arith)
    two (b ∷ c ∷ bs) h = refl

pub i32_at-append : (a x : Text) (o : ℕ) → o + 4 ≤ length a → i32_at (a ++ x) o ≡ i32_at a o
unfolding i32_at
i32_at-append a x o h =
    rw (drop-append_le o a x (omega arith)) (four (drop o a) (omega (arith, length-drop o a)))
  where
    four : (bs : Text) → 4 ≤ length bs → i32_at (bs ++ x) 0 ≡ i32_at bs 0
    four [] h = absurd (omega arith)
    four (b ∷ []) h = absurd (omega arith)
    four (b ∷ c ∷ []) h = absurd (omega arith)
    four (b ∷ c ∷ d ∷ []) h = absurd (omega arith)
    four (b ∷ c ∷ d ∷ e ∷ bs) h = refl

-- An NLMSG_ERROR with a code; zero acknowledges a request.
pub record IsAnswer (a : Text) (code : ℕ) : Type 0 where
  pub long : 20 ≤ length a
  pub short : length a ≤ 4096
  pub type : u16_at a 4 ≡ ok 2
  pub reads : i32_at a 16 ≡ ok code

abbrev pub request_error : ℕ → NlError
request_error code = record { shown = codes "netlink request"; io = some (negated code) }

pub error_in-answer :
    (a x : Text) (code : ℕ) (s : Socket)
    → IsAnswer a code
    → error_in (a ++ x) (length a) s ≡ done code s
unfolding error_in
error_in-answer a x code s h =
    let inside : leb 20 (length a) ≡ true = ground arith in
    rw (inside, ◌>>=◌)
      (rw (u16_at-append a x 4 (omega arith), h.type, i32_at-append a x 16 (omega arith), h.reads)
        refl)

pub request-answer :
    (m a : Text) (code : ℕ) (rest : List (Result ℕ Text)) (s : Socket)
    → s.refusals ≡ []
    → s.inbox ≡ ok a ∷ rest
    → IsAnswer a code
    → let t : Socket = record s { sent = s.sent ++ m ∷ []; inbox = rest } in
      request m s ≡ (if code == 0 then done tt t else failed (request_error code) t)
unfolding request
request-answer m a code rest s quiet e h =
    let buf : Text = replicate 4096 0 in
    let room : length a ≤ length buf = omega (arith, h.short, length-replicate 4096 0) in
    let sent : Socket = record s { sent = s.sent ++ m ∷ [] } in
    rw (send_lem m s quiet, ◌>>=◌)
      (rw (recv_buf_lem buf a rest sent e room, ◌>>=◌)
        (rw (error_in-answer a (drop (length a) buf) code (record sent { inbox = rest }) h, ◌>>=◌)
          (elim (Bool-cases (code == 0)) [ inl z ↦ rw z refl | inr z ↦ rw z refl ])))

-- Writes into the front of a buffer.
write_at-front :
    (a c bs : Text) (o : ℕ)
    → o + length bs ≤ length a
    → write_at (a ++ c) o bs ≡ ok ((take o a ++ bs ++ drop (o + length bs) a) ++ c)
unfolding write_at
write_at-front a c bs o h =
    let inside : leb (o + length bs) (length (a ++ c)) ≡ true = ground (arith, length-append a c) in
    rw
      (
        inside,
        take-append o a c (omega arith),
        drop-append_le (o + length bs) a c h,
        append_assoc (take o a ++ bs) (drop (o + length bs) a) c,
      )
      refl

replicate-add :
    (m n : ℕ) → let zeros : ℕ → Text = (λ k. replicate k 0) in zeros (m + n) ≡ zeros m ++ zeros n
replicate-add zero n = let e : 0 + n ≡ n = omega arith in rw e refl
replicate-add (suc m) n =
    let e : suc m + n ≡ suc (m + n) = omega arith in rw (e, replicate-add m n) refl

abbrev put : Text → ℕ → Text → Text
put a o bs = take o a ++ bs ++ drop (o + length bs) a

abbrev query_header : ℕ → ℕ → Text
query_header len seq =
    let a = put (replicate 36 0) 0 (u32_bytes len) in
    let b = put a 4 (u16_bytes 18) in let c = put b 6 (u16_bytes 5) in put c 8 (u32_bytes seq)

nlhdr_front :
    (c : Text) (len seq : ℕ)
    → nlhdr (replicate 36 0 ++ c) len 18 5 seq ≡ ok (query_header len seq ++ c)
unfolding nlhdr
nlhdr_front c len seq =
    let a1 : Text = put (replicate 36 0) 0 (u32_bytes len) in
    let a2 : Text = put a1 4 (u16_bytes 18) in
    let a3 : Text = put a2 6 (u16_bytes 5) in
    rw (write_at-front (replicate 36 0) c (u32_bytes len) 0 (omega arith)) (
      rw (write_at-front a1 c (u16_bytes 18) 4 (omega arith)) (
        rw (write_at-front a2 c (u16_bytes 5) 6 (omega arith))
          (write_at-front a3 c (u32_bytes seq) 8 (omega arith))))

abbrev name_header : ℕ → ℕ → ℕ → Text
name_header len seq n =
    let a = put (query_header len seq) 32 (u16_bytes (4 + n)) in put a 34 (u16_bytes 3)

put_nla_front :
    (c : Text) (len seq n : ℕ)
    → put_nla (query_header len seq ++ c) 32 3 n ≡ ok (name_header len seq n ++ c)
unfolding put_nla
put_nla_front c len seq n =
    let a : Text = put (query_header len seq) 32 (u16_bytes (4 + n)) in
    rw (write_at-front (query_header len seq) c (u16_bytes (4 + n)) 32 (omega arith))
      (write_at-front a c (u16_bytes 3) 34 (omega arith))

-- A write over the bytes that follow a front.
write_at-middle :
    (a b c bs : Text) (o : ℕ)
    → o ≡ length a
    → length b ≡ length bs
    → write_at (a ++ (b ++ c)) o bs ≡ ok (a ++ (bs ++ c))
unfolding write_at
write_at-middle a b c bs o at_end same =
    let inside : leb (o + length bs) (length (a ++ (b ++ c))) ≡ true =
      ground (arith, length-append a (b ++ c), length-append b c) in
    let after : drop (o + length bs) (a ++ (b ++ c)) ≡ c =
      rw (at_end, sym same, drop-past_front a (b ++ c) (length b)) (drop-append b c) in
    rw (inside, after, at_end, take-front a (b ++ c), append_assoc a bs c) refl

-- The empty message, cut where the name goes.
cut_buffer :
    (n total p : ℕ)
    → total ≡ 36 + (n + suc p)
    → let z : ℕ → Text = (λ k. replicate k 0) in z total ≡ z 36 ++ (z n ++ z (suc p))
cut_buffer n total p e = rw (e, replicate-add 36 (n + suc p), replicate-add n (suc p)) refl

name_nla :
    (name : Text)
    → let n = length name in
      nla (3, name ++ 0 ∷ [])
      ≡ u16_bytes (4 + (n + 1)) ++ (u16_bytes 3 ++ (name ++ 0 ∷ padding (5 + n)))
unfolding nla
name_nla name =
    let n = length name in
    let e : 4 + (n + 1) ≡ 5 + n = omega arith in
    rw (length-append name (0 ∷ []), append_assoc name (0 ∷ []) (padding (4 + (n + 1))))
      (ap (λ k. u16_bytes (4 + (n + 1)) ++ (u16_bytes 3 ++ (name ++ 0 ∷ padding k))) e)

abbrev pub query_bytes : Text → ℕ → Text
query_bytes name seq =
    (u32_bytes (32 + align4 (5 + length name))
      ++ u16_bytes 18
      ++ u16_bytes 5
      ++ u32_bytes seq
      ++ replicate 20 0)
    ++ nlas ((3, name ++ 0 ∷ []) ∷ [])

-- The bytes of the query: a header whose length is that of the message, an empty `ifinfomsg`, and
-- the name with its zero byte as the one attribute.
pub link_query-nlas : (name : Text) (seq : ℕ) → link_query name seq ≡ ok (query_bytes name seq)
unfolding link_query nlas
link_query-nlas name seq =
    let n = length name in
    let total = 16 + 16 + align4 (4 + n + 1) in
    let p = align4 (5 + n) - (5 + n) in
    let tail : Text = replicate n 0 ++ replicate (suc p) 0 in
    let size = 32 + align4 (5 + n) in
    let same : 4 + n + 1 ≡ 5 + n = omega arith in
    let written : Text = name_header size seq (n + 1) in
    rw (cut_buffer n total p (omega arith), same)
      (rw (nlhdr_front tail size seq) (
        rw (put_nla_front tail size seq (n + 1)) (
          write_at-middle written (replicate n 0) (replicate (suc p) 0) name 36 refl
            (length-replicate n 0)
          ∙ rw (append-nil (nla (3, name ++ 0 ∷ [])), name_nla name) refl)))
