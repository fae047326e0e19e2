-- ===== src/Netlink/Redirect.antt =====
-- netlink.rs `add_redirect_filter`: the message is written front to back, and the lengths of the
-- attributes that hold others are filled in when they end.
use containerd_cloudhypervis.Common.{
  ℕ, ◌≡◌, refl, [], ◌∷◌, ◌++◌, Text, codes, length, replicate, ok, ◌>>=◌,
}
use containerd_cloudhypervis.Netlink.Bytes.{
  R, u16_bytes, u32_bytes, nlhdr, write_at, push_nla_str, close_at, close_nested,
}
use containerd_cloudhypervis.Netlink.Socket.{M, next_seq, request, lift}
use containerd_cloudhypervis.Netlink.Socket as Socket
use containerd_cloudhypervis.Netlink.Encoding.{nlas}

abbrev zeros : ℕ → Text
zeros n = replicate n 0

-- `(ETH_P_ALL as u16).to_be()`.
abbrev tcm_info : ℕ
tcm_info = 0x0300

-- TCA_MIRRED_PARMS.
abbrev mirred_parms : ℕ → Text
mirred_parms dst_idx =
    u32_bytes 0
    ++ (u32_bytes 0
        ++ (u32_bytes 4 ++ (u32_bytes 0 ++ (u32_bytes 0 ++ (u32_bytes 1 ++ u32_bytes dst_idx)))))

-- The selector: flags 1, one key, and the key that matches all.
abbrev selector : Text
selector = (1 ∷ 0 ∷ 1 ∷ zeros 13) ++ zeros 16

unfoldable pub redirect_message : ℕ → ℕ → ℕ → R Text
unfolding push_nla_str close_at close_nested nlhdr write_at
redirect_message src_idx dst_idx seq = do
  let b =
      zeros 16
      ++ (0 ∷ zeros 3)
      ++ u32_bytes src_idx
      ++ u32_bytes 0
      ++ u32_bytes 0xFFFF0000
      ++ u32_bytes tcm_info
  let b = push_nla_str b 1 (codes "u32")
  let opts = length b
  let b = b ++ zeros 4
  let act = length b
  let b = b ++ zeros 4
  let tab = length b
  let b = push_nla_str (b ++ zeros 4) 1 (codes "mirred")
  let ao = length b
  let b = b ++ zeros 4 ++ u16_bytes 32 ++ u16_bytes 2 ++ mirred_parms dst_idx
  b ← close_nested b ao 2
  b ← close_at b tab 1
  b ← close_at b act 7
  let sel = length b
  let b = b ++ zeros 4 ++ selector
  b ← close_at b sel 5
  b ← close_at b opts 2
  nlhdr b (length b) 44 0x605 seq

-- The attributes of the filter, as the tree that the kernel reads.
unfoldable pub redirect_attrs : ℕ → Text
unfolding nlas
redirect_attrs dst_idx =
    let options = nlas ((2, mirred_parms dst_idx) ∷ []) in
    let action = nlas ((1, codes "mirred" ++ 0 ∷ []) ∷ (0x8002, options) ∷ []) in
    let actions = nlas ((1, action) ∷ []) in
    nlas ((1, codes "u32" ++ 0 ∷ []) ∷ (2, nlas ((7, actions) ∷ (5, selector) ∷ [])) ∷ [])

-- The message is one header, whose length is that of the message, the tcmsg of the interface to
-- redirect from, and the tree of attributes.
pub redirect_message-nlas :
    (src_idx dst_idx seq : ℕ)
    → redirect_message src_idx dst_idx seq
      ≡ ok (
          u32_bytes 140
          ++ u16_bytes 44
          ++ u16_bytes 0x605
          ++ u32_bytes seq
          ++ zeros 4
          ++ (zeros 4 ++ u32_bytes src_idx ++ zeros 4 ++ u32_bytes 0xFFFF0000 ++ u32_bytes 0x0300)
          ++ redirect_attrs dst_idx)
unfolding redirect_message redirect_attrs
redirect_message-nlas src_idx dst_idx seq = refl

unfoldable pub add_redirect_filter : ℕ → ℕ → M (Unit {0})
unfolding next_seq redirect_message request
add_redirect_filter src_idx dst_idx =
    Socket.◌>>=◌ next_seq
      (λ seq. Socket.◌>>=◌ (lift (redirect_message src_idx dst_idx seq)) (λ b. request b))
