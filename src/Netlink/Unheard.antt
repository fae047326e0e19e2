-- ===== src/Netlink/Unheard.antt =====
-- netlink.rs `get_link_index` and `del_link`: the query for a link asks for an acknowledgement and
-- does not read it.
use containerd_cloudhypervis.Common.{
  ℕ, ◌+◌, ◌%◌, ◌^◌, ◌≤◌, ◌≡◌, ◌≢◌, refl, true, false, List, [], ◌∷◌, ◌++◌, Text, Result, ok, drop,
  length, replicate, leb, ltb, arith, none, codes, ◌==◌,
}
use containerd_cloudhypervis.Netlink.Bytes.{
  negated, u16_at, i32_at, u16_bytes, u32_bytes, write_at, nlhdr,
}
use containerd_cloudhypervis.Netlink.Encoding.{length-replicate}
use containerd_cloudhypervis.Netlink.Socket.{
  Socket, done, failed, ◌>>=◌, next_seq, send_lem, error_in,
}
use containerd_cloudhypervis.Netlink.Answers.{recv_buf_lem}
use containerd_cloudhypervis.Netlink.Requests.{
  IsAnswer, request-answer, error_in-answer, u16_at-append, i32_at-append, query_bytes,
  link_query-nlas,
}
use containerd_cloudhypervis.Netlink.Links.{get_link_index, del_link}

-- An RTM_NEWLINK that tells the index of a link.
pub record IsReply (d : Text) (idx : ℕ) : Type 0 where
  pub long : 24 ≤ length d
  pub short : length d ≤ 4096
  pub type : u16_at d 4 ≡ ok 16
  pub index : i32_at d 20 ≡ ok idx

error_in-reply :
    (d x : Text) (idx : ℕ) (s : Socket) → IsReply d idx → error_in (d ++ x) (length d) s ≡ done 0 s
unfolding error_in
error_in-reply d x idx s h =
    let inside : leb 20 (length d) ≡ true = ground arith in
    rw (inside, ◌>>=◌) (rw (u16_at-append d x 4 (omega arith), h.type) refl)

abbrev pub next : ℕ → ℕ
next seq = (seq + 1) % 2 ^ 32

-- The message with which `del_link` asks for the deletion.
abbrev pub delete_bytes : ℕ → ℕ → Text
delete_bytes idx seq =
    u32_bytes 32
    ++ u16_bytes 17
    ++ u16_bytes 5
    ++ u32_bytes seq
    ++ replicate 8 0
    ++ u32_bytes idx
    ++ replicate 8 0

module _ (io_text : ℕ → Text) where
  pub get_link_index-reply :
      (name d : Text) (idx : ℕ) (rest : List (Result ℕ Text)) (s : Socket)
      → s.refusals ≡ []
      → s.inbox ≡ ok d ∷ rest
      → IsReply d idx
      → get_link_index io_text name s
        ≡ done idx (record s {
          seq = next s.seq;
          sent = s.sent ++ query_bytes name s.seq ∷ [];
          inbox = rest;
        })
  unfolding get_link_index next_seq
  get_link_index-reply name d idx rest s quiet e h =
      let m = query_bytes name s.seq in
      let buf : Text = replicate 4096 0 in
      let asked : Socket = record s { seq = next s.seq } in
      let sent : Socket = record s { seq = next s.seq; sent = s.sent ++ m ∷ [] } in
      let read : Socket = record sent { inbox = rest } in
      let room : length d ≤ length buf = omega (arith, h.short, length-replicate 4096 0) in
      let known : ltb (length d) 24 ≡ false = ground arith in
      rw (link_query-nlas name s.seq, send_lem m asked quiet, ◌>>=◌)
        (rw (recv_buf_lem buf d rest sent e room, ◌>>=◌)
          (rw (error_in-reply d (drop (length d) buf) idx read h, ◌>>=◌)
            (rw (known, i32_at-append d (drop (length d) buf) 20 (omega arith), h.index) refl)))

  -- The deletion of a link is reported as done whatever the kernel answers to it: what `request`
  -- reads is the acknowledgement of the query before, and the answer is left for the next call.
  del_link-unheard :
      (name d ack : Text) (idx : ℕ) (rest : List (Result ℕ Text)) (s : Socket)
      → s.refusals ≡ []
      → s.inbox ≡ ok d ∷ ok ack ∷ rest
      → IsReply d idx
      → IsAnswer ack 0
      → del_link io_text name s
        ≡ done tt (record s {
          seq = next (next s.seq);
          sent = (s.sent ++ query_bytes name s.seq ∷ []) ++ delete_bytes idx (next s.seq) ∷ [];
          inbox = rest;
        })
  unfolding del_link next_seq nlhdr write_at
  del_link-unheard name d ack idx rest s quiet e reply acks =
      let m = query_bytes name s.seq in
      let asked : Socket = record s {
        seq = next (next s.seq);
        sent = s.sent ++ m ∷ [];
        inbox = ok ack ∷ rest;
      } in
      rw (get_link_index-reply name d idx (ok ack ∷ rest) s quiet e reply, ◌>>=◌)
        (request-answer (delete_bytes idx (next s.seq)) ack 0 rest asked quiet refl acks)

  -- A query that the kernel refuses.
  pub get_link_index-refused :
      (name a : Text) (code : ℕ) (rest : List (Result ℕ Text)) (s : Socket)
      → s.refusals ≡ []
      → s.inbox ≡ ok a ∷ rest
      → IsAnswer a code
      → code ≢ 0
      → get_link_index io_text name s
        ≡ failed
            (record {
              shown = codes "link " ++ (name ++ (codes ": " ++ io_text (negated code)));
              io = none;
            })
            (record s {
              seq = next s.seq;
              sent = s.sent ++ query_bytes name s.seq ∷ [];
              inbox = rest;
            })
  unfolding get_link_index next_seq
  get_link_index-refused name a code rest s quiet e h error =
      let m = query_bytes name s.seq in
      let buf : Text = replicate 4096 0 in
      let asked : Socket = record s { seq = next s.seq } in
      let sent : Socket = record s { seq = next s.seq; sent = s.sent ++ m ∷ [] } in
      let read : Socket = record sent { inbox = rest } in
      let room : length a ≤ length buf = omega (arith, h.short, length-replicate 4096 0) in
      let other : (code == 0) ≡ false = ground arith in
      rw (link_query-nlas name s.seq, send_lem m asked quiet, ◌>>=◌)
        (rw (recv_buf_lem buf a rest sent e room, ◌>>=◌)
          (rw (error_in-answer a (drop (length a) buf) code read h, ◌>>=◌) (rw other refl)))
