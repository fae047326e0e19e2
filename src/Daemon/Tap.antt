-- ===== src/Daemon/Tap.antt =====
-- netns.rs `prepare_tap` and `activate_tap`.
use containerd_cloudhypervis.Common.{
  ℕ, Option, none, some, List, [], ◌∷◌, ◌++◌, Text, codes, Result, ok, err, unwrap_or, ite,
  Text-discrete,
}
use containerd_cloudhypervis.Netlink.Socket.{NlError, Socket, M, ◌>>=◌, ◌>>◌, pure, fail}
use containerd_cloudhypervis.Netlink.Replies.{Link}
use containerd_cloudhypervis.Netlink.Links.{
  get_link_index, del_link, set_link_netns_fd, set_link_up, add_ingress_qdisc,
}
use containerd_cloudhypervis.Netlink.Redirect.{add_redirect_filter}
use containerd_cloudhypervis.Netlink.Queries.{
  best_effort, dump_links, get_ipv4, find_veth, get_default_gw, flush_addrs,
}
use containerd_cloudhypervis.Netlink.Configure.{caught}
use containerd_cloudhypervis.Netlink.Namespaces.{
  T, Host, Ran, came, fell, EnterTrial, context, with_netlink, in_netns, retry,
}
use containerd_cloudhypervis.Netlink.Namespaces as Namespaces
use containerd_cloudhypervis.Daemon.Network.{PodNetInfo}
use containerd_cloudhypervis.Daemon.Gateway.{infer_gateway}

-- `opened` is what `open_ns` gives: the descriptor, or the errno.
unfoldable pub opened_ns : Text → Result ℕ ℕ → M ℕ
opened_ns path (ok fd) = pure fd
opened_ns path (err errno) = fail (record { shown = codes "open " ++ path; io = some errno })

-- The TAP is recorded under the name that is asked for; `create_tap` takes its first 15 bytes, and the
-- names of the daemon have at most 12.
unfoldable pub made : Text → Option NlError → T (Unit {0})
made tap none h = came tt (record h { taps = h.taps ++ (h.here, tap) ∷ [] })
made tap (some e) h = fell (record e { shown = codes "create TAP" }) h

-- The UTF-8 bytes of an arrow to the right.
abbrev arrow : Text
arrow = 226 ∷ 134 ∷ 146 ∷ []

-- What is outside of a call's own text: how the namespace is entered, the sockets that are opened in
-- the pod's namespace and in the daemon's, and the result of `create_tap`.
pub record TapTrial : Type 0 where
  pub enter : EnterTrial
  pub pod : Result NlError Socket
  pub host : Result NlError Socket
  pub created : Option NlError

module _ (io_text : ℕ → Text) where
  first_address : List Link → M (Option (Text × Text))
  unfolding get_ipv4 Text-discrete
  first_address [] = pure none
  first_address ((idx, name, mac) ∷ links) =
      let skipped = first_address links in
      let tried : M (Option (Text × Text)) = (do
        ip ← get_ipv4 io_text idx
        elim ip [ none ↦ first_address links | some cidr ↦ pure (some (cidr, mac)) ]) in
      ite (Text-discrete name (codes "lo")) skipped (ite (Text-discrete name []) skipped tried)

  addressed_link : M (Option (Text × Text))
  unfolding dump_links first_address
  addressed_link = do links ← dump_links io_text; first_address links

  gateway_or_inferred : Text → M Text
  unfolding get_default_gw caught infer_gateway
  gateway_or_inferred cidr = do
    gw ← caught (get_default_gw io_text) (λ e. pure none)
    pure (elim gw [ none ↦ unwrap_or (infer_gateway cidr) [] | some g ↦ g ])

  unfoldable pub discover : M PodNetInfo
  unfolding addressed_link gateway_or_inferred
  discover = do
    veth ← context (codes "find veth") (retry 20 addressed_link)
    gw ← gateway_or_inferred veth.0
    pure (record { ip_cidr = veth.0; mac = veth.1; gateway = gw })

  unfoldable pub prepare_tap : Text → Text → TapTrial → T PodNetInfo
  unfolding made
  prepare_tap netns_path tap t =
      Namespaces.◌>>=◌ (in_netns netns_path t.enter (with_netlink t.pod discover)) (λ info.
        Namespaces.◌>>◌ (with_netlink t.host (best_effort (del_link io_text tap)))
          (Namespaces.◌>>◌ (made tap t.created) (Namespaces.return info)))

  unfoldable pub move_tap : Text → Text → Result ℕ ℕ → M (Unit {0})
  move_tap netns_path tap opened = do
    tap_idx ← context (codes "TAP index") (get_link_index io_text tap)
    ns_fd ← opened_ns netns_path opened
    context (codes "move TAP to pod netns") (set_link_netns_fd tap_idx ns_fd)

  unfoldable pub redirect_tap : Text → M (Unit {0})
  redirect_tap tap = do
    tap_idx ← context (codes "TAP index") (get_link_index io_text tap)
    context (codes "TAP up") (set_link_up tap_idx)
    veth ← context (codes "find veth") (retry 20 (find_veth io_text tap))
    let veth_idx = veth.1
    context (codes "ingress veth") (add_ingress_qdisc veth_idx)
    context (codes "redir veth" ++ (arrow ++ codes "tap")) (add_redirect_filter veth_idx tap_idx)
    context (codes "ingress tap") (add_ingress_qdisc tap_idx)
    context (codes "redir tap" ++ (arrow ++ codes "veth")) (add_redirect_filter tap_idx veth_idx)
    best_effort (flush_addrs io_text veth_idx)

  unfoldable pub activate_tap : Text → Text → Result ℕ ℕ → TapTrial → T (Unit {0})
  activate_tap netns_path tap opened t =
      Namespaces.◌>>◌ (with_netlink t.host (move_tap netns_path tap opened))
        (in_netns netns_path t.enter (with_netlink t.pod (redirect_tap tap)))
