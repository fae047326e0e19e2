-- ===== src/Examples/Links.antt =====
-- Runs of the models of netlink.rs.
use containerd_cloudhypervis.Common.{
  ℕ, ◌≡◌, ◌↔◌, refl, none, some, List, [], ◌∷◌, ◌++◌, Text, codes, Result, ok, err, arith,
  replicate, lossy,
}
use containerd_cloudhypervis.Netlink.Bytes.{
  spinning, u16_bytes, u32_bytes, u16_at, u32_at, i32_at, link_query, write_at, nlhdr, put_nla,
}
use containerd_cloudhypervis.Netlink.Attributes.{
  trim_end, show_mac, Ipv4, parse_link_nlas, find_ipv4_nla,
}
use containerd_cloudhypervis.Netlink.Encoding.{Attr, nlas}
use containerd_cloudhypervis.Netlink.RoundTrip.{
  parse_link_nlas-nlas, find_ipv4_nla-nlas, last_with, first_ipv4,
}
use containerd_cloudhypervis.Netlink.Bounds.{parse_link_nlas-Finishes, Finishes}
use containerd_cloudhypervis.Netlink.Scan.{error_at, scan_from, scan}
use containerd_cloudhypervis.Netlink.Socket.{Socket, done, failed, send, recv_buf, error_in}
use containerd_cloudhypervis.Netlink.Dump.{dump}
use containerd_cloudhypervis.Netlink.Dumped.{Message, message, packed, datagram}
use containerd_cloudhypervis.Netlink.Answers.{answer, dump-answer}
use containerd_cloudhypervis.Netlink.Spins.{Passes, at_start, after_message, Stuck, scan-Stuck}
use containerd_cloudhypervis.Netlink.Requests.{IsAnswer, request_error, query_bytes}
use containerd_cloudhypervis.Netlink.Unheard.{IsReply}
use containerd_cloudhypervis.Netlink.Redirect.{
  redirect_message, redirect_attrs, redirect_message-nlas,
}
use containerd_cloudhypervis.Netlink.Configure.{configure_interface, resolve}
use containerd_cloudhypervis.Netlink.Configured.{strict_configure, configure_interface-strict}
use containerd_cloudhypervis.Netlink.Sent.{address_bytes, up_bytes, configure_interface-sent}

abbrev mac_bytes : Text
mac_bytes = 2 ∷ 66 ∷ 172 ∷ 17 ∷ 0 ∷ 10 ∷ []

abbrev pub eth0 : List Attr
eth0 = (3, codes "eth0" ++ 0 ∷ []) ∷ (4, u32_bytes 1500) ∷ (1, mac_bytes) ∷ []

parse_link_nlas-nlas_example :
    parse_link_nlas (nlas eth0) ≡ ok (codes "eth0", codes "02:42:ac:11:00:0a")
unfolding last_with lossy trim_end show_mac
parse_link_nlas-nlas_example = parse_link_nlas-nlas eth0 (omega arith)

abbrev addresses : List Attr
addresses = (2, 10 ∷ []) ∷ (1, 10 ∷ 0 ∷ 0 ∷ 7 ∷ []) ∷ []

find_ipv4_nla-nlas_example : find_ipv4_nla (nlas addresses) 1 ≡ ok (some (10, 0, 0, 7))
unfolding first_ipv4
find_ipv4_nla-nlas_example = find_ipv4_nla-nlas addresses 1 (omega arith)

parse_link_nlas-Finishes_example : Finishes (parse_link_nlas (9 ∷ 0 ∷ 3 ∷ 0 ∷ 101 ∷ []))
parse_link_nlas-Finishes_example = parse_link_nlas-Finishes (9 ∷ 0 ∷ 3 ∷ 0 ∷ 101 ∷ [])

abbrev pub no_text : ℕ → Text
no_text e = []

-- An RTM_NEWLINK for interface 2, and the body of an NLMSG_DONE.
abbrev pub link : Message
link = (16, replicate 10 0 ++ (replicate 4 0 ++ u32_bytes 2 ++ replicate 8 0))

abbrev pub end : Text
end = replicate 14 0

abbrev asked : Socket
asked = record {
  seq = 1;
  sent = [];
  refusals = [];
  inbox = answer ((link ∷ []) ∷ []) (link ∷ []) end [];
}

dump-answer_example :
    dump no_text (codes "q") asked
    ≡ done (message link ∷ message link ∷ []) (record asked { sent = codes "q" ∷ []; inbox = [] })
unfolding datagram packed message
dump-answer_example =
    dump-answer no_text (codes "q") ((link ∷ []) ∷ []) (link ∷ []) end [] asked refl refl
      (omega arith) (omega arith) (omega arith) (omega arith)

-- A message of 16 bytes, and then a header whose length is zero.
abbrev zero_length : Text
zero_length = u32_bytes 16 ++ u16_bytes 5 ++ replicate 26 0

scan-Stuck_example :
    ((scan zero_length 32 [] ≡ err spinning) ↔ Stuck zero_length 32)
    × (Stuck zero_length 32 → (fuel : ℕ) → scan_from fuel zero_length 32 0 [] ≡ err spinning)
scan-Stuck_example = scan-Stuck zero_length 32 []

zero_length-Passes : Passes zero_length 32 0 16
unfolding u32_at u16_at error_at
zero_length-Passes = (omega arith, refl, (5, refl, omega arith, refl))

zero_length-Stuck : Stuck zero_length 32
unfolding u32_at u16_at error_at
zero_length-Stuck = (
  16,
  after_message 16 at_start zero_length-Passes,
  (omega arith, refl, (0, refl, omega arith, refl)),
)

zero_length_test : scan zero_length 32 [] ≡ err spinning
zero_length_test = (scan-Stuck zero_length 32 []).0.1 zero_length-Stuck

-- The answers of the kernel: a link, and an NLMSG_ERROR with a code.
abbrev pub reply : Text
reply = message link

abbrev pub error : ℕ → Text
error code = u32_bytes 36 ++ u16_bytes 2 ++ replicate 10 0 ++ u32_bytes code ++ replicate 16 0

-- The bit pattern of -17, for EEXIST.
abbrev pub minus_17 : ℕ
minus_17 = 0xFFFFFFEF

pub reply-IsReply : IsReply reply 2
unfolding message u16_at i32_at
reply-IsReply = record { long = omega arith; short = omega arith; type = refl; index = refl }

pub ack-IsAnswer : IsAnswer (error 0) 0
unfolding u16_at i32_at
ack-IsAnswer = record { long = omega arith; short = omega arith; type = refl; reads = refl }

pub exists-IsAnswer : IsAnswer (error minus_17) minus_17
unfolding u16_at i32_at
exists-IsAnswer = record { long = omega arith; short = omega arith; type = refl; reads = refl }

abbrev pub opened : List (Result ℕ Text) → Socket
opened inbox = record { seq = 1; sent = []; refusals = []; inbox = inbox }

redirect_message-nlas_example :
    redirect_message 2 5 9
    ≡ ok (
        u32_bytes 140
        ++ u16_bytes 44
        ++ u16_bytes 0x605
        ++ u32_bytes 9
        ++ replicate 4 0
        ++ (replicate 4 0
            ++ u32_bytes 2
            ++ replicate 4 0
            ++ u32_bytes 0xFFFF0000
            ++ u32_bytes 0x0300)
        ++ redirect_attrs 5)
redirect_message-nlas_example = redirect_message-nlas 2 5 9

abbrev pod_ip : Ipv4
pod_ip = (10, 0, 0, 7)

abbrev gateway : Ipv4
gateway = (10, 0, 0, 1)

configure_interface-strict_example :
    configure_interface no_text (codes "eth0") pod_ip 24 none none
    ≡ strict_configure no_text (codes "eth0") pod_ip 24 none none
configure_interface-strict_example =
    configure_interface-strict no_text (codes "eth0") pod_ip 24 none none

abbrev found : Socket
found = opened (ok reply ∷ ok (error 0) ∷ ok (error minus_17) ∷ ok (error 0) ∷ [])

abbrev resolved : Socket
resolved = record {
  seq = 2;
  sent = query_bytes (codes "eth0") 1 ∷ [];
  refusals = [];
  inbox = ok (error 0) ∷ ok (error minus_17) ∷ ok (error 0) ∷ [];
}

found_resolved : resolve no_text (codes "eth0") none found ≡ done (codes "eth0", 2) resolved
unfolding resolve link_query write_at nlhdr put_nla send recv_buf error_in message nlas u16_at
    i32_at
found_resolved = refl

-- The second answer has an error code: the route is not asked for.
configure_interface-sent_example :
    configure_interface no_text (codes "eth0") pod_ip 24 (some gateway) none found
    ≡ failed (request_error minus_17) (record {
      seq = 4;
      sent = query_bytes (codes "eth0") 1 ∷ address_bytes 2 pod_ip 24 2 ∷ up_bytes 2 3 ∷ [];
      refusals = [];
      inbox = ok (error 0) ∷ [];
    })
configure_interface-sent_example =
    configure_interface-sent no_text (codes "eth0") pod_ip 24 gateway none found resolved
      (codes "eth0") 2 (error 0) (error minus_17) (error 0) 0 minus_17 0 [] found_resolved refl refl
      ack-IsAnswer exists-IsAnswer ack-IsAnswer
