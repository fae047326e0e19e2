-- ===== src/Netlink/Scan.antt =====
-- netlink.rs `dump`: the inner loop, over the messages of one datagram.
use containerd_cloudhypervis.Common.{
  ℕ, zero, suc, ◌+◌, ◌&&◌, List, [], ◌∷◌, ◌++◌, Text, take, drop, ok, err, ◌>>=◌, ltb, leb, ◌==◌,
  if◌then◌else◌,
}
use containerd_cloudhypervis.Netlink.Bytes.{spinning, R, u16_at, u32_at, i32_at, align4, negated}

-- How the loop over the messages of one datagram ends, with what has been gathered.
pub data Scan : Type 0 where
  finished : List Text → Scan
  wants_more : List Text → Scan
  refused : ℕ → Scan

-- The error number of an NLMSG_ERROR at an offset; it is read also where the datagram is shorter.
unfoldable pub error_at : Text → ℕ → ℕ → R ℕ
unfolding i32_at
error_at r off ty = if ty == 2 then i32_at r (off + 16) else ok 0

-- `r[off..off + len]`, where that is a message inside the datagram.
unfoldable pub gathered : Text → ℕ → ℕ → ℕ → List Text → List Text
gathered r n off len out =
    if ltb 0 len && leb (off + len) n then out ++ take len (drop off r) ∷ [] else out

unfoldable pub scan_from : ℕ → Text → ℕ → ℕ → List Text → R Scan
unfolding u32_at u16_at error_at gathered
scan_from zero r n off out = err spinning
scan_from (suc fuel) r n off out =
    let step : R Scan = (do
      len ← u32_at r off
      ty ← u16_at r (off + 4)
      let rest = error_at r off ty >>= (λ e.
          let next = scan_from fuel r n (off + align4 len) (gathered r n off len out) in
          if e == 0 then next else ok (refused (negated e)))
      if ty == 3 then ok (finished out) else rest) in
    if leb (off + 16) n then step else ok (wants_more out)

-- A round for each byte is enough, unless a message says that its length is zero.
unfoldable pub scan : Text → ℕ → List Text → R Scan
unfolding scan_from
scan r n out = scan_from (suc n) r n 0 out
