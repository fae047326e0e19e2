-- ===== src/Daemon/Unmoved.antt =====
-- netns.rs `activate_tap` when the kernel refuses to move the TAP: the refusal is not read.
use containerd_cloudhypervis.Common.{
  ℕ, ◌≡◌, ◌≢◌, refl, Option, none, some, List, [], ◌∷◌, ◌++◌, Text, codes, Result, ok,
}
use containerd_cloudhypervis.Netlink.Bytes.{u16_bytes, u32_bytes, write_at, nlhdr, put_nla}
use containerd_cloudhypervis.Netlink.Encoding.{nlas}
use containerd_cloudhypervis.Netlink.Socket.{NlError, Socket, done, failed, ◌>>=◌, next_seq}
use containerd_cloudhypervis.Netlink.Requests.{IsAnswer, request-answer, query_bytes}
use containerd_cloudhypervis.Netlink.Unheard.{
  next, IsReply, get_link_index-reply, get_link_index-refused,
}
use containerd_cloudhypervis.Netlink.Links.{set_link_netns_fd}
use containerd_cloudhypervis.Netlink.Configure.{caught}
use containerd_cloudhypervis.Netlink.Namespaces.{
  T, Namespace, Host, came, fell, EnterTrial, back_in, context, with_netlink, refused_by, guarded,
  enter, in_netns, appears,
}
use containerd_cloudhypervis.Netlink.Namespaces as Namespaces
use containerd_cloudhypervis.Daemon.Tap.{move_tap, opened_ns, redirect_tap, activate_tap}
use containerd_cloudhypervis.Netlink.Entered.{
  Enters, context_done, in_netns_fell, with_netlink_failed, with_netlink_done,
}

-- RTM_SETLINK that moves a link to the namespace of a descriptor.
abbrev pub move_bytes : ℕ → ℕ → ℕ → Text
move_bytes idx fd seq =
    u32_bytes 40
    ++ u16_bytes 16
    ++ u16_bytes 5
    ++ u32_bytes seq
    ++ u32_bytes 0
    ++ u32_bytes 0
    ++ u32_bytes idx
    ++ u32_bytes 0
    ++ u32_bytes 0
    ++ nlas ((28, u32_bytes fd) ∷ [])

set_link_netns_fd-done :
    (idx fd : ℕ) (ack : Text) (rest : List (Result ℕ Text)) (s : Socket)
    → s.refusals ≡ []
    → s.inbox ≡ ok ack ∷ rest
    → IsAnswer ack 0
    → set_link_netns_fd idx fd s
      ≡ done tt (record s {
        seq = next s.seq;
        sent = s.sent ++ move_bytes idx fd s.seq ∷ [];
        inbox = rest;
      })
unfolding set_link_netns_fd next_seq nlhdr put_nla write_at nlas
set_link_netns_fd-done idx fd ack rest s quiet e acks =
    request-answer (move_bytes idx fd s.seq) ack 0 rest (record s { seq = next s.seq }) quiet e acks

module _ (io_text : ℕ → Text) (path tap : Text) where
  move_tap-unheard :
      (d ack : Text) (idx fd : ℕ) (rest : List (Result ℕ Text)) (s : Socket)
      → s.refusals ≡ []
      → s.inbox ≡ ok d ∷ ok ack ∷ rest
      → IsReply d idx
      → IsAnswer ack 0
      → move_tap io_text path tap (ok fd) s
        ≡ done tt (record s {
          seq = next (next s.seq);
          sent = (s.sent ++ query_bytes tap s.seq ∷ []) ++ move_bytes idx fd (next s.seq) ∷ [];
          inbox = rest;
        })
  unfolding move_tap context caught opened_ns
  move_tap-unheard d ack idx fd rest s quiet e reply acks =
      let asked : Socket = record s {
        seq = next s.seq;
        sent = s.sent ++ query_bytes tap s.seq ∷ [];
        inbox = ok ack ∷ rest;
      } in
      rw (get_link_index-reply io_text tap d idx (ok ack ∷ rest) s quiet e reply, ◌>>=◌)
        (context_done (codes "move TAP to pod netns") (set_link_netns_fd idx fd) asked
          (set_link_netns_fd-done idx fd ack rest asked quiet refl acks))

  redirect_tap-missing :
      (a : Text) (code : ℕ) (more : List (Result ℕ Text)) (p : Socket)
      → p.refusals ≡ []
      → p.inbox ≡ ok a ∷ more
      → IsAnswer a code
      → code ≢ 0
      → redirect_tap io_text tap p
        ≡ failed
            (record { shown = codes "TAP index"; io = none })
            (record p {
              seq = next p.seq;
              sent = p.sent ++ query_bytes tap p.seq ∷ [];
              inbox = more;
            })
  unfolding redirect_tap context caught
  redirect_tap-missing a code more p quiet e h error =
      rw (get_link_index-refused io_text tap a code more p quiet e h error, ◌>>=◌) refl

module _ (io_text : ℕ → Text) (path tap : Text) (t : EnterTrial) (created : Option NlError)
    (s p : Socket) (h : Host) where
  -- Let no send fail and the way into the pod's namespace be free. The kernel answers the query for
  -- the TAP, acknowledges it, and then answers whatever it does to the request that moves the TAP
  -- to the pod's namespace; there, the query for the TAP is refused. Then the error of
  -- `activate_tap` is "TAP index"; the daemon's socket was left with the answer to the move unread,
  -- and nothing but the query has been sent on the pod's.
  pub activate_tap-unmoved :
      (d ack a : Text) (idx fd code : ℕ) (rest more : List (Result ℕ Text))
      → s.refusals ≡ []
      → s.inbox ≡ ok d ∷ ok ack ∷ rest
      → IsReply d idx
      → IsAnswer ack 0
      → Enters t
      → p.refusals ≡ []
      → p.inbox ≡ ok a ∷ more
      → IsAnswer a code
      → code ≢ 0
      → let s' : Socket = record s {
        seq = next (next s.seq);
        sent = (s.sent ++ query_bytes tap s.seq ∷ []) ++ move_bytes idx fd (next s.seq) ∷ [];
        inbox = rest;
      } in
        let p' : Socket = record p {
          seq = next p.seq;
          sent = p.sent ++ query_bytes tap p.seq ∷ [];
          inbox = more;
        } in
        activate_tap io_text path tap
          (ok fd)
          (record { enter = t; pod = ok p; host = ok s; created = created })
          h
        ≡ fell
            (record { shown = codes "TAP index"; io = none })
            (record h {
              here = back_in h.here path t.returned;
              used = (h.used ++ (h.here, s') ∷ []) ++ (some path, p') ∷ [];
            })
  unfolding activate_tap
  activate_tap-unmoved d ack a idx fd code rest more quiet e reply acks free quiet' e' h' error =
      let moved = move_tap-unheard io_text path tap d ack idx fd rest s quiet e reply acks in
      let missing = redirect_tap-missing io_text path tap a code more p quiet' e' h' error in
      rw (with_netlink_done (move_tap io_text path tap (ok fd)) s h moved, Namespaces.◌>>=◌)
        (in_netns_fell path t (with_netlink (ok p) (redirect_tap io_text tap)) _ free
          (with_netlink_failed (redirect_tap io_text tap) p _ missing))
