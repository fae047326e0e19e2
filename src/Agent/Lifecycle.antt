-- ===== src/Agent/Lifecycle.antt =====
-- What holds of the container manager of container.rs between two calls, and that every call keeps it.
use containerd_cloudhypervis.Common.{
  ℕ, zero, suc, ◌+◌, ◌≡◌, ◌≢◌, refl, inl, inr, true, some, Text, lookup, arith, Text-discrete,
  Distinct, insert-Distinct, update-Distinct, is_some,
}
use containerd_cloudhypervis.Agent.Manager.{
  Manager, Container, running, LayerTrial, mount_layers, started, new, set_container, add_mount,
  erofs, device, layer_dir,
}
use containerd_cloudhypervis.Agent.Tables.{
  update-some, is_some-insert, is_some-insert_self, insert-some,
}

-- Every container has a pid; one that runs has an exit channel and a log.
pub record IsKept (s : Manager) (id : Text) (c : Container) : Type 0 where
  pub has_pid : is_some c.pid ≡ true
  pub has_channel : c.state ≡ running → is_some (lookup id s.exit_receivers) ≡ true
  pub has_log : c.state ≡ running → is_some (lookup id s.logs) ≡ true

pub record Inv (s : Manager) : Type 0 where
  pub containers_distinct : Distinct s.containers
  pub channels_distinct : Distinct s.exit_receivers
  pub logs_distinct : Distinct s.logs
  pub kept : (id : Text) (c : Container) → lookup id s.containers ≡ some c → IsKept s id c

pub new-Inv : Inv new
unfolding new lookup
new-Inv = record {
  containers_distinct = tt;
  channels_distinct = tt;
  logs_distinct = tt;
  kept = λ id c h. cc;
}

pub started-Inv : (id : Text) (pid : ℕ) (s : Manager) → Inv s → Inv (started id pid s)
unfolding started
started-Inv id pid s v = record {
  containers_distinct = update-Distinct id _ s.containers v.containers_distinct;
  channels_distinct = insert-Distinct id _ s.exit_receivers v.channels_distinct;
  logs_distinct = insert-Distinct id _ s.logs v.logs_distinct;
  kept = λ j c h.
      let (w, found, (hit, miss)) = update-some id j _ s.containers c h in
      let k = v.kept j w found in
      elim (Text-discrete id j) [
        | yes same ↦ record {
          has_pid = rw (hit same);
          has_channel = λ r. is_some-insert_self id j _ s.exit_receivers same;
          has_log = λ r. is_some-insert_self id j _ s.logs same;
        }
        | no other ↦ record {
          has_pid = rw (miss other) k.has_pid;
          has_channel =
              λ r. is_some-insert id j _ s.exit_receivers (k.has_channel (rw (miss other) at r));
          has_log = λ r. is_some-insert id j _ s.logs (k.has_log (rw (miss other) at r));
        }
      ];
}

-- Two managers with the same tables; the mounts and the record of kills may differ.
pub record SameTables (s t : Manager) : Type 0 where
  pub containers : t.containers ≡ s.containers
  pub channels : t.exit_receivers ≡ s.exit_receivers
  pub logs : t.logs ≡ s.logs

pub SameTables-Inv : {s t : Manager} → SameTables s t → Inv s → Inv t
SameTables-Inv {s} {t} e v = record {
  containers_distinct = rw e.containers v.containers_distinct;
  channels_distinct = rw e.channels v.channels_distinct;
  logs_distinct = rw e.logs v.logs_distinct;
  kept = λ j c h.
      let k = v.kept j c (rw e.containers at h) in
      record {
        has_pid = k.has_pid;
        has_channel = λ r. rw e.channels (k.has_channel r);
        has_log = λ r. rw e.logs (k.has_log r);
      };
}

pub mount_layers-SameTables :
    (n i : ℕ) (layers : ℕ → LayerTrial) (dir : Text) (s : Manager)
    → SameTables s (mount_layers n i layers dir s).1
unfolding mount_layers
mount_layers-SameTables zero i layers dir s = record {
  containers = refl;
  channels = refl;
  logs = refl;
}
mount_layers-SameTables (suc n) i layers dir s = ground (
  arith,
  mount_layers-SameTables n (i + 1) layers dir (add_mount (erofs (device i) (layer_dir dir i)) s),
)

-- A container that is not running, with a pid, may be put under any name.
pub set_container-Inv :
    (id : Text) (x : Container) (s : Manager)
    → is_some x.pid ≡ true
    → x.state ≢ running
    → Inv s
    → Inv (set_container id x s)
set_container-Inv id x s p n v = record {
  containers_distinct = insert-Distinct id x s.containers v.containers_distinct;
  channels_distinct = v.channels_distinct;
  logs_distinct = v.logs_distinct;
  kept = λ j c h. elim (insert-some id j x c s.containers h) [
    | inl (same, e) ↦ record {
      has_pid = rw (← e) p;
      has_channel = λ r. absurd (n (e' e r));
      has_log = λ r. absurd (n (e' e r));
    }
    | inr (other, found) ↦
        let k = v.kept j c found in
        record { has_pid = k.has_pid; has_channel = k.has_channel; has_log = k.has_log }
  ];
}
  where
    e' : {c : Container} → x ≡ c → c.state ≡ running → x.state ≡ running
    e' q r = cc
