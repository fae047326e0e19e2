-- ===== src/Netlink/Sent.antt =====
-- netlink.rs `configure_interface`: what goes out to the kernel, byte for byte, and how it ends for
-- each answer.
use containerd_cloudhypervis.Common.{
  ℕ, ◌≡◌, refl, Option, some, List, [], ◌∷◌, ◌++◌, Text, Result, ok, ◌==◌, if◌then◌else◌,
  Bool-cases, inl, inr,
}
use containerd_cloudhypervis.Netlink.Bytes.{u16_bytes, u32_bytes, write_at, nlhdr, put_nla}
use containerd_cloudhypervis.Netlink.Attributes.{Ipv4}
use containerd_cloudhypervis.Netlink.Encoding.{nlas}
use containerd_cloudhypervis.Netlink.Socket.{Socket, Outcome, done, failed, ◌>>=◌, next_seq}
use containerd_cloudhypervis.Netlink.Requests.{IsAnswer, request-answer, request_error}
use containerd_cloudhypervis.Netlink.Unheard.{next}
use containerd_cloudhypervis.Netlink.Links.{add_address, set_link_up, add_default_route, octets}
use containerd_cloudhypervis.Netlink.Configure.{resolve, configure_interface}
use containerd_cloudhypervis.Netlink.Configured.{
  strict_route, strict_configure, configure_interface-strict,
}

-- The header of a message: length, type, flags, sequence number and port.
abbrev header : ℕ → ℕ → ℕ → ℕ → Text
header len ty flags seq =
    u32_bytes len ++ u16_bytes ty ++ u16_bytes flags ++ u32_bytes seq ++ u32_bytes 0

-- RTM_NEWADDR with the address as IFA_LOCAL and as IFA_ADDRESS.
abbrev pub address_bytes : ℕ → Ipv4 → ℕ → ℕ → Text
address_bytes idx ip prefix_len seq =
    header 40 20 0x605 seq
    ++ (2 ∷ prefix_len ∷ 0 ∷ 0 ∷ u32_bytes idx)
    ++ nlas ((2, octets ip) ∷ (1, octets ip) ∷ [])

-- RTM_SETLINK with IFF_UP set and in the mask of what changes.
abbrev pub up_bytes : ℕ → ℕ → Text
up_bytes idx seq = header 32 16 5 seq ++ u32_bytes 0 ++ u32_bytes idx ++ u32_bytes 1 ++ u32_bytes 1

-- RTM_NEWROUTE for every destination, by the gateway on the interface.
abbrev pub route_bytes : Ipv4 → ℕ → ℕ → Text
route_bytes gw idx seq =
    header 44 24 0x505 seq
    ++ (2 ∷ 0 ∷ 0 ∷ 0 ∷ 254 ∷ 3 ∷ 0 ∷ 1 ∷ u32_bytes 4)
    ++ nlas ((5, octets gw) ∷ (4, u32_bytes idx) ∷ [])

-- A socket after a request and its answer.
abbrev pub after : Text → List (Result ℕ Text) → Socket → Socket
after m rest s = record s { seq = next s.seq; sent = s.sent ++ m ∷ []; inbox = rest }

abbrev pub answered : ℕ → Socket → Outcome (Unit {0})
answered code t = if code == 0 then done tt t else failed (request_error code) t

module _ (a : Text) (code : ℕ) (rest : List (Result ℕ Text)) (s : Socket) (quiet : s.refusals ≡ [])
    (e : s.inbox ≡ ok a ∷ rest) (h : IsAnswer a code) where
  add_address-answer :
      (idx : ℕ) (ip : Ipv4) (prefix_len : ℕ)
      → add_address idx ip prefix_len s
        ≡ answered code (after (address_bytes idx ip prefix_len s.seq) rest s)
  unfolding add_address next_seq nlhdr put_nla write_at nlas
  add_address-answer idx ip prefix_len =
      request-answer (address_bytes idx ip prefix_len s.seq) a code rest
        (record s { seq = next s.seq }) quiet e h

  set_link_up-answer :
      (idx : ℕ) → set_link_up idx s ≡ answered code (after (up_bytes idx s.seq) rest s)
  unfolding set_link_up next_seq nlhdr write_at
  set_link_up-answer idx =
      request-answer (up_bytes idx s.seq) a code rest (record s { seq = next s.seq }) quiet e h

  add_default_route-answer :
      (gw : Ipv4) (idx : ℕ)
      → add_default_route gw idx s ≡ answered code (after (route_bytes gw idx s.seq) rest s)
  unfolding add_default_route next_seq nlhdr put_nla write_at nlas
  add_default_route-answer gw idx =
      request-answer (route_bytes gw idx s.seq) a code rest (record s { seq = next s.seq }) quiet e
        h

module _ (io_text : ℕ → Text) (device : Text) (ip : Ipv4) (prefix_len : ℕ) (gw : Ipv4)
    (mac : Option Text) (s t : Socket) (name : Text) (idx : ℕ) where
  -- With a gateway: once the link is found, `configure_interface` asks for the address, for the link
  -- to be up and for the route, in this order, and stops at the first answer with an error code.
  pub configure_interface-sent :
      (a b c : Text) (x y z : ℕ) (rest : List (Result ℕ Text))
      → resolve io_text device mac s ≡ done (name, idx) t
      → t.refusals ≡ []
      → t.inbox ≡ ok a ∷ ok b ∷ ok c ∷ rest
      → IsAnswer a x
      → IsAnswer b y
      → IsAnswer c z
      → let t1 = after (address_bytes idx ip prefix_len t.seq) (ok b ∷ ok c ∷ rest) t in
        let t2 = after (up_bytes idx t1.seq) (ok c ∷ rest) t1 in
        let t3 = after (route_bytes gw idx t2.seq) rest t2 in
        configure_interface io_text device ip prefix_len (some gw) mac s ≡ (
          if x == 0
          then (if y == 0 then answered z t3 else failed (request_error y) t2)
          else failed (request_error x) t1)
  unfolding strict_configure strict_route
  configure_interface-sent a b c x y z rest found quiet e ha hb hc =
      let t1 : Socket = after (address_bytes idx ip prefix_len t.seq) (ok b ∷ ok c ∷ rest) t in
      let t2 : Socket = after (up_bytes idx t1.seq) (ok c ∷ rest) t1 in
      let first = add_address-answer a x (ok b ∷ ok c ∷ rest) t quiet e ha idx ip prefix_len in
      let second = set_link_up-answer b y (ok c ∷ rest) t1 quiet refl hb idx in
      let third = add_default_route-answer c z rest t2 quiet refl hc gw idx in
      rw (configure_interface-strict io_text device ip prefix_len (some gw) mac, found, ◌>>=◌)
        (rw (first, ◌>>=◌)
          (elim (Bool-cases (x == 0)) [
            | inr refused ↦ rw refused refl
            | inl fine ↦
                rw (fine, second, ◌>>=◌)
                  (elim (Bool-cases (y == 0)) [
                    | inr refused ↦ rw refused refl
                    | inl fine' ↦ rw (fine', third) refl
                  ])
          ]))
