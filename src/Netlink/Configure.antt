-- ===== src/Netlink/Configure.antt =====
-- netlink.rs `configure_interface` on an open socket. The logging is left out but for the dumps of
-- links that it makes.
use containerd_cloudhypervis.Common.{
  ℕ, zero, suc, ◌-◌, ◌/◌, Bool, ◌||◌, Option, none, some, List, [], ◌∷◌, ◌++◌, Text, codes, ltb,
  ◌==◌, if◌then◌else◌, starts_with, show_dec,
}
use containerd_cloudhypervis.Netlink.Bytes.{panicked}
use containerd_cloudhypervis.Netlink.Attributes.{Ipv4}
use containerd_cloudhypervis.Netlink.Replies.{Link}
use containerd_cloudhypervis.Netlink.Socket.{
  NlError, done, failed, blocked, stops, M, ◌>>=◌, ◌>>◌, pure, fail,
}
use containerd_cloudhypervis.Netlink.Links.{
  get_link_index, set_link_up, add_address, add_default_route,
}
use containerd_cloudhypervis.Netlink.Queries.{find_by_mac, dump_links}

-- `match m { Ok(a) => Ok(a), Err(e) => handler(e) }`.
unfoldable pub caught : {A : Type 0} → M A → (NlError → M A) → M A
caught m handler s = elim (m s) [
  | done a t ↦ done a t
  | failed e t ↦ handler e t
  | blocked ↦ blocked
  | stops f ↦ stops f
]

-- A text that stands in another.
unfoldable pub contains : Text → Text → Bool
unfolding starts_with
contains part [] = starts_with part []
contains part (c ∷ cs) = starts_with part (c ∷ cs) || contains part cs

-- "already exists", by the text of the error.
unfoldable pub says_exists : NlError → Bool
unfolding contains
says_exists e = contains (codes "EEXIST") e.shown || contains (codes "File exists") e.shown

unfoldable pub tolerated : M (Unit {0}) → M (Unit {0})
unfolding caught says_exists
tolerated m = caught m (λ e. if says_exists e then pure tt else fail e)

unfoldable pub route_via : Option Ipv4 → ℕ → M (Unit {0})
route_via none idx = pure tt
route_via (some gw) idx = tolerated (add_default_route gw idx)

show_links : List Link → Text
unfolding show_dec
show_links [] = []
show_links ((idx, name, mac) ∷ links) =
    let shown =
      name ++ (codes "(idx=" ++ (show_dec idx ++ (codes ",mac=" ++ (mac ++ codes ")")))) in
    let rest = show_links links in
    elim links [ [] ↦ shown | l ∷ ls ↦ shown ++ (codes ", " ++ rest) ]

module _ (io_text : ℕ → Text) where
  -- The source counts the attempts up from 0; here the first argument counts those that are left.
  unfoldable pub index_retries : ℕ → Text → ℕ → M ℕ
  unfolding get_link_index caught show_dec
  index_retries zero device max_attempts s = stops panicked
  index_retries (suc left) device max_attempts s =
      let again = index_retries left device max_attempts in
      let given_up = λ (e : NlError).
        let text =
          codes "device "
          ++ (device
              ++ (codes " not found after " ++ (show_dec max_attempts ++ codes " retries"))) in
        fail (record { shown = text; io = e.io }) in
      caught (get_link_index io_text device) (λ e. if ltb 0 left then again else given_up e) s

  unfoldable pub retry_get_link_index : Text → ℕ → M ℕ
  unfolding index_retries
  retry_get_link_index device max_attempts = index_retries max_attempts device max_attempts

  -- A dump for the log, whose error is dropped.
  logged_links : M (List Link)
  unfolding dump_links caught
  logged_links = caught (dump_links io_text) (λ e. pure [])

  mac_missing : Text → ℕ → M (Text × ℕ)
  unfolding logged_links show_links show_dec
  mac_missing mac max_attempts = do
    links ← logged_links
    fail (record {
      shown =
          codes "device with mac "
          ++ (mac
              ++ (codes " not found after "
                  ++ (show_dec max_attempts
                      ++ (codes " retries; visible: [" ++ (show_links links ++ codes "]")))));
      io = none;
    })

  unfoldable pub mac_retries : ℕ → Text → ℕ → M (Text × ℕ)
  unfolding find_by_mac logged_links mac_missing
  mac_retries zero mac max_attempts s = stops panicked
  mac_retries (suc left) mac max_attempts s =
      let again = mac_retries left mac max_attempts in
      let attempt = max_attempts - 1 - left in
      let logs = if attempt == 0 || attempt == max_attempts / 2 then logged_links else pure [] in
      let missed = logs >> (if ltb 0 left then again else mac_missing mac max_attempts) in
      (find_by_mac io_text mac >>= (λ found. elim found [ none ↦ missed | some link ↦ pure link ]))
        s

  unfoldable pub retry_find_by_mac : Text → ℕ → M (Text × ℕ)
  unfolding mac_retries
  retry_find_by_mac mac max_attempts = mac_retries max_attempts mac max_attempts

  unfoldable pub resolve : Text → Option Text → M (Text × ℕ)
  unfolding retry_get_link_index retry_find_by_mac
  resolve device none = do idx ← retry_get_link_index device 20; pure (device, idx)
  resolve device (some mac) = retry_find_by_mac mac 50

  unfoldable pub configure_interface : Text → Ipv4 → ℕ → Option Ipv4 → Option Text → M (Unit {0})
  unfolding route_via
  configure_interface device ip prefix_len gateway mac = do
    (resolved_name, idx) ← resolve device mac
    tolerated (add_address idx ip prefix_len)
    set_link_up idx
    route_via gateway idx
