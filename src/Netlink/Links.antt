-- ===== src/Netlink/Links.antt =====
-- netlink.rs: the calls that send one message and read one answer.
use containerd_cloudhypervis.Common.{
  ℕ, ◌+◌, Option, none, some, [], ◌∷◌, ◌++◌, Text, codes, length, replicate, ltb, ◌==◌,
  if◌then◌else◌,
}
use containerd_cloudhypervis.Netlink.Bytes.{
  i32_at, align4, u32_bytes, write_at, set_byte, nlhdr, put_nla, negated, link_query,
}
use containerd_cloudhypervis.Netlink.Attributes.{Ipv4}
use containerd_cloudhypervis.Netlink.Replies.{af_inet}
use containerd_cloudhypervis.Netlink.Socket.{
  NlError, done, failed, blocked, stops, M, ◌>>=◌, ◌>>◌, pure, fail, lift, send, recv_buf, next_seq,
  error_in, request,
}

module _ (io_text : ℕ → Text) where
  unfoldable pub get_link_index : Text → M ℕ
  unfolding next_seq
  get_link_index name = do
    seq ← next_seq
    m ← lift (link_query name seq)
    send m
    (r, n) ← recv_buf (replicate 4096 0)
    e ← error_in r n
    let gone : NlError = record {
      shown = codes "link " ++ (name ++ (codes ": " ++ io_text (negated e)));
      io = none;
    }
    let missing : NlError = record {
      shown = codes "link " ++ (name ++ codes " not found");
      io = none;
    }
    if e == 0 then (if ltb n 24 then fail missing else lift (i32_at r 20)) else fail gone

  unfoldable pub del_link : Text → M (Unit {0})
  unfolding next_seq
  del_link name = do
    idx ← get_link_index name
    seq ← next_seq
    m ← lift (nlhdr (replicate 32 0) 32 17 5 seq)
    m ← lift (write_at m 20 (u32_bytes idx))
    request m

unfoldable pub set_link_netns_fd : ℕ → ℕ → M (Unit {0})
unfolding next_seq nlhdr put_nla write_at
set_link_netns_fd idx netns_fd = do
  let total : ℕ = 16 + 16 + 8
  seq ← next_seq
  m ← lift (nlhdr (replicate total 0) total 16 5 seq)
  m ← lift (write_at m 20 (u32_bytes idx))
  m ← lift (put_nla m 32 28 4)
  m ← lift (write_at m 36 (u32_bytes netns_fd))
  request m

abbrev iff_up : ℕ
iff_up = 1

unfoldable pub set_link_up : ℕ → M (Unit {0})
unfolding next_seq nlhdr write_at
set_link_up idx = do
  seq ← next_seq
  m ← lift (nlhdr (replicate 32 0) 32 16 5 seq)
  m ← lift (write_at m 20 (u32_bytes idx))
  m ← lift (write_at m 24 (u32_bytes iff_up))
  m ← lift (write_at m 28 (u32_bytes iff_up))
  request m

abbrev pub octets : Ipv4 → Text
octets (a, b, c, d) = a ∷ b ∷ c ∷ d ∷ []

unfoldable pub add_address : ℕ → Ipv4 → ℕ → M (Unit {0})
unfolding next_seq nlhdr put_nla write_at
add_address ifindex ip prefix_len = do
  let total : ℕ = 40
  seq ← next_seq
  m ← lift (nlhdr (replicate total 0) total 20 0x0605 seq)
  m ← lift (set_byte m 16 af_inet)
  m ← lift (set_byte m 17 prefix_len)
  m ← lift (set_byte m 18 0)
  m ← lift (set_byte m 19 0)
  m ← lift (write_at m 20 (u32_bytes ifindex))
  m ← lift (put_nla m 24 2 4)
  m ← lift (write_at m 28 (octets ip))
  m ← lift (put_nla m 32 1 4)
  m ← lift (write_at m 36 (octets ip))
  request m

unfoldable pub add_default_route : Ipv4 → ℕ → M (Unit {0})
unfolding next_seq nlhdr put_nla write_at
add_default_route gateway ifindex = do
  let total : ℕ = 44
  seq ← next_seq
  m ← lift (nlhdr (replicate total 0) total 24 0x0505 seq)
  m ← lift (set_byte m 16 af_inet)
  m ← lift (set_byte m 17 0)
  m ← lift (set_byte m 18 0)
  m ← lift (set_byte m 19 0)
  m ← lift (set_byte m 20 254)
  m ← lift (set_byte m 21 3)
  m ← lift (set_byte m 22 0)
  m ← lift (set_byte m 23 1)
  m ← lift (write_at m 24 (u32_bytes 4))
  m ← lift (put_nla m 28 5 4)
  m ← lift (write_at m 32 (octets gateway))
  m ← lift (put_nla m 36 4 4)
  m ← lift (write_at m 40 (u32_bytes ifindex))
  request m

abbrev ingress : Text
ingress = codes "ingress" ++ 0 ∷ []

unfoldable pub del_ingress_qdisc : ℕ → M (Unit {0})
unfolding next_seq nlhdr put_nla write_at
del_ingress_qdisc ifindex = do
  let total = 16 + 20 + align4 (4 + length ingress)
  seq ← next_seq
  m ← lift (nlhdr (replicate total 0) total 37 5 seq)
  m ← lift (set_byte m 16 0)
  m ← lift (write_at m 20 (u32_bytes ifindex))
  m ← lift (write_at m 24 (u32_bytes 0xFFFF0000))
  m ← lift (write_at m 28 (u32_bytes 0xFFFFFFF1))
  m ← lift (put_nla m 36 1 (length ingress))
  m ← lift (write_at m 40 ingress)
  request m

abbrev pub eexist : ℕ
eexist = 17

-- `Err(e) if e.downcast_ref::<io::Error>()… == Some(EEXIST) => Ok(())`.
tolerate : Option ℕ → NlError → M (Unit {0})
tolerate none e = fail e
tolerate (some errno) e = if errno == eexist then pure tt else fail e

unless_exists : M (Unit {0}) → M (Unit {0})
unfolding tolerate
unless_exists m s = elim (m s) [
  | done a t ↦ done a t
  | failed e t ↦ tolerate e.io e t
  | blocked ↦ blocked
  | stops f ↦ stops f
]

unfoldable pub add_ingress_qdisc : ℕ → M (Unit {0})
unfolding next_seq nlhdr put_nla write_at unless_exists
add_ingress_qdisc ifindex = do
  let total = 16 + 20 + align4 (4 + length ingress)
  seq ← next_seq
  m ← lift (nlhdr (replicate total 0) total 36 0x605 seq)
  m ← lift (set_byte m 16 0)
  m ← lift (write_at m 20 (u32_bytes ifindex))
  m ← lift (write_at m 24 (u32_bytes 0xFFFF0000))
  m ← lift (write_at m 28 (u32_bytes 0xFFFFFFF1))
  m ← lift (put_nla m 36 1 (length ingress))
  m ← lift (write_at m 40 ingress)
  unless_exists (request m)
