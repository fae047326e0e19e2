-- ===== src/Examples/Taps.antt =====
-- Runs of the models of netns.rs.
use containerd_cloudhypervis.Common.{
  ◌≡◌, refl, true, none, some, [], ◌∷◌, ◌++◌, codes, ok, arith, replicate, show_dec, lossy,
  Text-discrete, split, show_from, ℕ_discrete,
}
use containerd_cloudhypervis.Netlink.Bytes.{
  u32_bytes, u16_at, i32_at, link_query, put_nla, byte_at, nlhdr, u32_at, write_at,
}
use containerd_cloudhypervis.Netlink.Encoding.{nlas, nla}
use containerd_cloudhypervis.Netlink.Socket.{Socket, send, recv_buf, error_in, next_seq, request}
use containerd_cloudhypervis.Netlink.Dumped.{Message, datagram, packed, message}
use containerd_cloudhypervis.Netlink.Answers.{answer}
use containerd_cloudhypervis.Netlink.Requests.{query_bytes}
use containerd_cloudhypervis.Netlink.Namespaces.{
  Ran, Host, came, fell, hangs, faults, EnterTrial, appears, in_netns, with_netlink, context, retry,
  retry_from, enter, guarded, refused_by,
}
use containerd_cloudhypervis.Netlink.Entered.{Enters}
use containerd_cloudhypervis.Netlink.Replies.{
  show_ip, address_in, first_in, gateway_in, is_address_of, link_in, links_in, other_than,
}
use containerd_cloudhypervis.Netlink.Scan.{scan, error_at, gathered, scan_from}
use containerd_cloudhypervis.Netlink.Queries.{best_effort, dump_links, get_default_gw, get_ipv4}
use containerd_cloudhypervis.Netlink.Links.{del_link, get_link_index}
use containerd_cloudhypervis.Netlink.Address.{octet, parse_ipv4}
use containerd_cloudhypervis.Netlink.Attributes.{
  find_ipv4_nla, ipv4_nla_from, link_nlas_from, mac_after, name_after, octets_of, or_else,
  parse_link_nlas, show_mac, trim_end,
}
use containerd_cloudhypervis.Netlink.Configure.{caught}
use containerd_cloudhypervis.Netlink.Dump.{after_scan, dump, dump_from}
use containerd_cloudhypervis.Daemon.Network.{PodNetInfo, parse_digits, parse_u32}
use containerd_cloudhypervis.Daemon.Gateway.{
  infer_gateway, of_u32, bit_and, first_host, mask_of, to_u32,
}
use containerd_cloudhypervis.Daemon.Subnet.{second_address, infer_gateway-second_address}
use containerd_cloudhypervis.Daemon.Tap.{TapTrial, discover, prepare_tap, activate_tap, made}
use containerd_cloudhypervis.Daemon.Moves.{prepare_tap-made}
use containerd_cloudhypervis.Daemon.Unmoved.{move_bytes, activate_tap-unmoved}
use containerd_cloudhypervis.Examples.Links.{
  no_text, end, reply, error, minus_17, opened, eth0, reply-IsReply, ack-IsAnswer, exists-IsAnswer,
}

infer_gateway-second_address_example :
    infer_gateway (codes "10.88.3.2/16") ≡ some (codes "10.88.0.1")
unfolding show_ip show_dec second_address
infer_gateway-second_address_example =
    infer_gateway-second_address 10 88 3 2 16 (omega arith) (omega arith) (omega arith)
      (omega arith) (omega arith) (omega arith)

abbrev free : EnterTrial
free = record { looks = true ∷ []; own = none; target = none; entered = none; returned = true }

free-Enters : Enters free
unfolding appears
free-Enters = record { there = refl; own = refl; target = refl; entered = refl }

abbrev host : Host
host = record { here = none; used = []; taps = [] }

-- The move of the TAP is refused with the errno 17, and in the pod the TAP is not found.
abbrev daemon_socket : Socket
daemon_socket = opened (ok reply ∷ ok (error 0) ∷ ok (error minus_17) ∷ [])

abbrev pod_socket : Socket
pod_socket = opened (ok (error minus_17) ∷ [])

activate_tap-unmoved_example :
    activate_tap no_text
      (codes "/run/ns")
      (codes "tap0")
      (ok 7)
      (record { enter = free; pod = ok pod_socket; host = ok daemon_socket; created = none })
      host
    ≡ fell
        (record { shown = codes "TAP index"; io = none })
        (record {
          here = none;
          used =
              (
                none,
                record daemon_socket {
                  seq = 3;
                  sent = query_bytes (codes "tap0") 1 ∷ move_bytes 2 7 2 ∷ [];
                  inbox = ok (error minus_17) ∷ [];
                },
              )
              ∷ (
                some (codes "/run/ns"),
                record pod_socket { seq = 2; sent = query_bytes (codes "tap0") 1 ∷ []; inbox = [] },
              )
              ∷ [];
          taps = [];
        })
activate_tap-unmoved_example =
    activate_tap-unmoved no_text (codes "/run/ns") (codes "tap0") free none daemon_socket pod_socket
      host reply (error 0) (error minus_17) 2 7 minus_17 (ok (error minus_17) ∷ []) [] refl refl
      reply-IsReply ack-IsAnswer free-Enters refl refl exists-IsAnswer (λ e. omega arith)

-- The pod has one link, with the address 10.88.3.2/16, and no route.
abbrev named_link : Message
named_link = (16, replicate 10 0 ++ (replicate 4 0 ++ u32_bytes 2 ++ replicate 8 0) ++ nlas eth0)

abbrev address : Message
address =
    (20, replicate 10 0 ++ (2 ∷ 16 ∷ 0 ∷ 0 ∷ u32_bytes 2) ++ nlas ((1, 10 ∷ 88 ∷ 3 ∷ 2 ∷ []) ∷ []))

abbrev probed : TapTrial
probed = record {
  enter = free;
  pod = ok (
      opened
        (answer [] (named_link ∷ []) end (answer [] (address ∷ []) end (answer [] [] end []))));
  host = ok (opened (ok (error minus_17) ∷ []));
  created = none;
}

abbrev found : PodNetInfo
found = record {
  ip_cidr = codes "10.88.3.2/16";
  mac = codes "02:42:ac:11:00:0a";
  gateway = codes "10.88.0.1";
}

abbrev host_of : Ran PodNetInfo → Host
host_of (came a h) = h
host_of (fell e h) = h
host_of hangs = host
host_of (faults f) = host

abbrev after_probe : Host
after_probe = host_of (prepare_tap no_text (codes "/run/ns") (codes "tap0") probed host)

probed_run :
    prepare_tap no_text (codes "/run/ns") (codes "tap0") probed host ≡ came found after_probe
unfolding prepare_tap discover made in_netns with_netlink context retry retry_from enter guarded
    refused_by appears send recv_buf error_in next_seq request scan error_at gathered scan_from
    datagram packed message nlas nla best_effort dump_links get_default_gw get_ipv4 del_link
    get_link_index link_query put_nla byte_at i32_at nlhdr u16_at u32_at write_at split
    Text-discrete show_dec show_from lossy ℕ_discrete bit_and first_host infer_gateway mask_of
    of_u32 to_u32 parse_digits parse_u32 octet parse_ipv4 find_ipv4_nla ipv4_nla_from link_nlas_from
    mac_after name_after octets_of or_else parse_link_nlas show_mac trim_end caught after_scan dump
    dump_from address_in first_in gateway_in is_address_of link_in links_in other_than show_ip
probed_run = refl

prepare_tap-made_example :
    (after_probe.here ≡ none) × (after_probe.taps ≡ (none, codes "tap0") ∷ [])
prepare_tap-made_example =
    prepare_tap-made no_text (codes "/run/ns") (codes "tap0") probed host found after_probe
      probed_run
