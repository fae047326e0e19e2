-- ===== src/Shim/Netns.antt =====
-- netns.rs `cleanup_tap`: what is left of a pod's network is removed, as far as that works.
use containerd_cloudhypervis.Common.{ℕ, none, some, Text, Result}
use containerd_cloudhypervis.Netlink.Socket.{NlError, Socket, M, ◌>>=◌, ◌>>◌, pure}
use containerd_cloudhypervis.Netlink.Links.{get_link_index, del_link, del_ingress_qdisc}
use containerd_cloudhypervis.Netlink.Queries.{best_effort, find_veth}
use containerd_cloudhypervis.Netlink.Configure.{caught}
use containerd_cloudhypervis.Netlink.Namespaces.{
  T, came, fell, hangs, faults, EnterTrial, with_netlink, in_netns_nowait,
}

module _ (io_text : ℕ → Text) where
  -- The veth that is found; an error counts as none.
  remove_veth_qdisc : Text → M (Unit {0})
  unfolding find_veth caught best_effort del_ingress_qdisc
  remove_veth_qdisc tap = do
    found ← caught (find_veth io_text tap) (λ e. pure none)
    elim found [ none ↦ pure tt | some veth ↦ best_effort (del_ingress_qdisc veth.1) ]

  remove_tap_qdisc : Text → M (Unit {0})
  unfolding get_link_index caught best_effort del_ingress_qdisc
  remove_tap_qdisc tap = best_effort (get_link_index io_text tap >>= del_ingress_qdisc)

  unfoldable pub clean : Text → M (Unit {0})
  unfolding remove_veth_qdisc remove_tap_qdisc del_link
  clean tap = do remove_veth_qdisc tap; remove_tap_qdisc tap; best_effort (del_link io_text tap)

  -- Neither a socket that does not open nor a namespace that is gone is an error.
  unfoldable pub cleanup_tap : Text → Text → EnterTrial → Result NlError Socket → T (Unit {0})
  unfolding clean
  cleanup_tap netns_path tap t opened h =
      elim (in_netns_nowait netns_path t (with_netlink opened (clean tap)) h) [
        | came a g ↦ came tt g
        | fell e g ↦ came tt g
        | hangs ↦ hangs
        | faults f ↦ faults f
      ]
