-- ===== src/Agent/Calls.antt =====
-- Every call of the container manager of container.rs keeps its invariant.
use containerd_cloudhypervis.Common.{
  ℕ, ◌≡◌, ◌≢◌, refl, sym, ap, ◌∙◌, ◌⊎◌, inl, inr, Bool, true, Option, none, some, List, Text, ok,
  err, lookup, remove, arith, Option-cases, Text-discrete, update-Distinct, remove-Distinct,
  insert-Distinct, is_some,
}
use containerd_cloudhypervis.Agent.Manager.{
  Manager, Container, ContainerState, created, running, stopped, ExitStatus, modify, not_found,
  io_failed, mount_failed, no_config, renamed, KillOutcome, CreateTrial, LayerTrial, create,
  create_rest, mount_layers, start, started, run, kill, not_executed, delivered, gone, refused,
  delete, adopt, rename, mark_stopped, exit_event, new, set_container,
}
use containerd_cloudhypervis.Agent.Tables.{
  update-some, is_some-insert_self, is_some-update, is_some-rename, rename-Distinct, rename-some,
  remove-some, insert-some,
}
use containerd_cloudhypervis.Agent.Lifecycle.{
  Inv, IsKept, SameTables, SameTables-Inv, started-Inv, set_container-Inv, mount_layers-SameTables,
}
use containerd_cloudhypervis.Agent.Keeps.{
  Keeps, rules, bind-Keeps, then-Keeps, attempt-Keeps, config_step-Keeps, add_mount-Keeps,
  modify-Keeps, return-Keeps,
}

created-ne-running : ◌≢◌ {A = ContainerState} created running
created-ne-running e = cc

stopped-ne-running : ◌≢◌ {A = ContainerState} stopped running
stopped-ne-running e = cc

created_entry-Keeps :
    (id : Text) (pid : ℕ)
    → Keeps
        (modify (set_container id (record { pid = some pid; exit_code = none; state = created })))
created_entry-Keeps id pid =
    modify-Keeps _ (λ s v. set_container-Inv id _ s refl created-ne-running v)

create_rest-Keeps :
    (id : Text) (t : CreateTrial) (lowerdirs : List Text) → Keeps (create_rest id t lowerdirs)
unfolding create_rest
create_rest-Keeps id t lowerdirs = then-Keeps _ _ (attempt-Keeps t.overlay_mounted mount_failed) (
    then-Keeps _ _ (add_mount-Keeps _) (
      then-Keeps _ _
        (config_step-Keeps t.config_inline t.config_written t.config_on_disk io_failed no_config)
        (then-Keeps _ _ (attempt-Keeps t.volumes_written io_failed) (
          then-Keeps _ _ (attempt-Keeps t.spec_adapted io_failed)
            (then-Keeps _ _ (created_entry-Keeps id t.agent_pid) (return-Keeps t.agent_pid))))))

mount_layers-Keeps :
    (n i : ℕ) (layers : ℕ → LayerTrial) (dir : Text) → Keeps (mount_layers n i layers dir)
mount_layers-Keeps n i layers dir = record {
  keeps = λ s v. SameTables-Inv (mount_layers-SameTables n i layers dir s) v;
}

pub create-Keeps : (id : Text) (t : CreateTrial) → Keeps (create id t)
unfolding create
create-Keeps id t = search (rules, mount_layers-Keeps, create_rest-Keeps) depth 20

started-Keeps : (id : Text) (pid : ℕ) → Keeps (modify (started id pid))
started-Keeps id pid = modify-Keeps _ (λ s v. started-Inv id pid s v)

pub start-Keeps : (id : Text) (spawned : Option ℕ) → Keeps (start id spawned)
unfolding start
start-Keeps id spawned = search (rules, started-Keeps) depth 20

pub run-Keeps : (id : Text) (t : CreateTrial) (spawned : Option ℕ) → Keeps (run id t spawned)
unfolding run
run-Keeps id t spawned = search (bind-Keeps, create-Keeps, start-Keeps)

pub kill-SameTables : (id : Text) (out : KillOutcome) (s : Manager) → SameTables s (kill id out s).1
kill-SameTables id not_executed s = unfold kill in ground arith
kill-SameTables id delivered s = unfold kill in ground arith
kill-SameTables id gone s = unfold kill in ground arith
kill-SameTables id refused s = unfold kill in ground arith

pub kill-Keeps : (id : Text) (out : KillOutcome) → Keeps (kill id out)
kill-Keeps id out = record { keeps = λ s v. SameTables-Inv (kill-SameTables id out s) v }

removed-Inv :
    (id : Text) (s : Manager) → Inv s → Inv (record s { containers = remove id s.containers })
removed-Inv id s v = record {
  containers_distinct = remove-Distinct id s.containers v.containers_distinct;
  channels_distinct = v.channels_distinct;
  logs_distinct = v.logs_distinct;
  kept =
      λ j c h. kept_field (v.kept j c (remove-some id j c s.containers v.containers_distinct h).1);
}
  where
    kept_field :
        {j : Text} {c : Container}
        → IsKept s j c
        → IsKept (record s { containers = remove id s.containers }) j c
    kept_field k = record { has_pid = k.has_pid; has_channel = k.has_channel; has_log = k.has_log }

removed-Keeps : (id : Text) → Keeps (modify (λ s. record s { containers = remove id s.containers }))
removed-Keeps id = modify-Keeps _ (λ s v. removed-Inv id s v)

pub delete-Keeps : (id : Text) (executed : Bool) → Keeps (delete id executed)
unfolding delete
delete-Keeps id executed = search (rules, removed-Keeps) depth 20

pub mark_stopped-Inv : (id : Text) (code : ℕ) (s : Manager) → Inv s → Inv (mark_stopped id code s)
unfolding mark_stopped
mark_stopped-Inv id code s v = record {
  containers_distinct = update-Distinct id _ s.containers v.containers_distinct;
  channels_distinct = v.channels_distinct;
  logs_distinct = v.logs_distinct;
  kept = λ j c h.
      let (w, found, (hit, miss)) = update-some id j _ s.containers c h in
      let k = v.kept j w found in
      elim (Text-discrete id j) [
        | yes same ↦ record {
          has_pid = rw (hit same) k.has_pid;
          has_channel = λ r.
              absurd (stopped-ne-running (sym (ap (λ (x : Container). x.state) (hit same)) ∙ r));
          has_log = λ r.
              absurd (stopped-ne-running (sym (ap (λ (x : Container). x.state) (hit same)) ∙ r));
        }
        | no other ↦ record {
          has_pid = rw (miss other) k.has_pid;
          has_channel = λ r. k.has_channel (rw (miss other) at r);
          has_log = λ r. k.has_log (rw (miss other) at r);
        }
      ];
}

pub exit_event-Inv :
    (id : Text) (status : ExitStatus) (s : Manager) → Inv s → Inv (exit_event id status s)
unfolding exit_event
exit_event-Inv id status s v = record {
  containers_distinct = v.containers_distinct;
  channels_distinct = update-Distinct id _ s.exit_receivers v.channels_distinct;
  logs_distinct = update-Distinct id _ s.logs v.logs_distinct;
  kept = λ j c h.
      let k = v.kept j c h in
      record {
        has_pid = k.has_pid;
        has_channel = λ r. is_some-update id j _ s.exit_receivers (k.has_channel r);
        has_log = λ r. is_some-update id j _ s.logs (k.has_log r);
      };
}

-- Without an entry under the old name, `adopt` reports it and changes nothing.
pub adopt_missing :
    (old new : Text) (s : Manager)
    → lookup old s.containers ≡ none
    → adopt old new s ≡ (err not_found, s)
unfolding adopt
adopt_missing old new s e = ground arith

pub adopt_found :
    (old new : Text) (s : Manager) (c : Container) (pid : ℕ)
    → lookup old s.containers ≡ some c
    → c.pid ≡ some pid
    → adopt old new s
      ≡ (ok pid, renamed old new c (record s { containers = remove old s.containers }))
unfolding adopt
adopt_found old new s c pid e p = ground arith

pub has_some : {A : Type 0} (o : Option A) → is_some o ≡ true → (a : A) × (o ≡ some a)
has_some none h = cc
has_some (some a) h = (a, refl)

is_some-renamed {ℓ} :
    {V : Type ℓ} (old new j : Text) (m : List (Text × V))
    → new ≡ j
    → is_some (lookup old m) ≡ true
    → is_some (lookup j (rename old new m)) ≡ true
is_some-renamed old new j m e h = elim (Option-cases (lookup old m)) [
  | inl n ↦ absurd (ground arith)
  | inr (v, f) ↦ rw (rename-some old new v m f) (is_some-insert_self new j v (remove old m) e)
]

renamed-Inv :
    (old new : Text) (x : Container) (s : Manager)
    → lookup old s.containers ≡ some x
    → Inv s
    → Inv (renamed old new x (record s { containers = remove old s.containers }))
renamed-Inv old new x s e v = record {
  containers_distinct =
      insert-Distinct new x _ (remove-Distinct old s.containers v.containers_distinct);
  channels_distinct = rename-Distinct old new s.exit_receivers v.channels_distinct;
  logs_distinct = rename-Distinct old new s.logs v.logs_distinct;
  kept = λ j c h. elim (insert-some new j x c (remove old s.containers) h) [
    | inl (same, q) ↦ moved j c same q
    | inr (other, found) ↦
        let (n, h') = remove-some old j c s.containers v.containers_distinct found in
        let k = v.kept j c h' in
        record {
          has_pid = k.has_pid;
          has_channel = λ r. is_some-rename old new j s.exit_receivers n (k.has_channel r);
          has_log = λ r. is_some-rename old new j s.logs n (k.has_log r);
        }
  ];
}
  where
    k : IsKept s old x
    k = v.kept old x e

    moved :
        (j : Text) (c : Container)
        → new ≡ j
        → x ≡ c
        → IsKept (renamed old new x (record s { containers = remove old s.containers })) j c
    moved j c same q = record {
      has_pid = rw (← q) k.has_pid;
      has_channel =
          λ r. is_some-renamed old new j s.exit_receivers same (k.has_channel (rw (← q) at r));
      has_log = λ r. is_some-renamed old new j s.logs same (k.has_log (rw (← q) at r));
    }

pub adopt-Keeps : (old new : Text) → Keeps (adopt old new)
adopt-Keeps old new = record {
  keeps = λ s v. by_entry s v (Option-cases (lookup old s.containers));
}
  where
    by_entry :
        (s : Manager)
        → Inv s
        → (lookup old s.containers ≡ none) ⊎ ((c : Container) × (lookup old s.containers ≡ some c))
        → Inv (adopt old new s).1
    by_entry s v (inl e) = rw (adopt_missing old new s e) v
    by_entry s v (inr (c, e)) =
        let (pid, p) = has_some c.pid (v.kept old c e).has_pid in
        rw (adopt_found old new s c pid e p) (renamed-Inv old new c s e v)
