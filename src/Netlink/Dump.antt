-- ===== src/Netlink/Dump.antt =====
-- netlink.rs `dump`: the loop over the datagrams of an answer.
use containerd_cloudhypervis.Common.{
  ℕ, zero, suc, List, [], ◌++◌, Text, codes, length, replicate, err, none,
}
use containerd_cloudhypervis.Netlink.Bytes.{spinning}
use containerd_cloudhypervis.Netlink.Scan.{Scan, finished, wants_more, refused, scan}
use containerd_cloudhypervis.Netlink.Socket.{M, ◌>>=◌, ◌>>◌, pure, fail, lift, send, recv_buf}

-- `io_text` is how an `io::Error` of that number is shown, the C library's text.
module _ (io_text : ℕ → Text) where
  unfoldable pub after_scan : Scan → (List Text → M (List Text)) → M (List Text)
  after_scan (finished out) again = pure out
  after_scan (wants_more out) again = again out
  after_scan (refused e) again = fail (record { shown = codes "nl dump: " ++ io_text e; io = none })

  -- Each round takes one datagram, with the buffer as the round before left it.
  unfoldable pub dump_from : ℕ → Text → List Text → M (List Text)
  unfolding after_scan
  dump_from zero r out = lift (err spinning)
  dump_from (suc fuel) r out = do
    (r', n) ← recv_buf r
    found ← lift (scan r' n out)
    after_scan found (dump_from fuel r')

  unfoldable pub dump : Text → M (List Text)
  unfolding dump_from
  dump buf = do send buf; λ s. dump_from (suc (length s.inbox)) (replicate 32768 0) [] s
