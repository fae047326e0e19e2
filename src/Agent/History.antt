-- ===== src/Agent/History.antt =====
-- What holds of the container manager of container.rs after any sequence of calls.
use containerd_cloudhypervis.Common.{
  ℕ, ◌≡◌, ◌≢◌, refl, ◌⊎◌, inl, inr, Bool, Option, none, some, List, [], ◌∷◌, Text, ok, err, lookup,
  remove, lookup-insert, lookup-remove_self, arith, Option-cases,
}
use containerd_cloudhypervis.Agent.Manager.{
  Manager, Container, ContainerLogs, ExitStatus, KillOutcome, CreateTrial, not_found, create, start,
  run, kill, delete, adopt, mark_stopped, exit_event, new,
}
use containerd_cloudhypervis.Agent.Tables.{lookup-rename}
use containerd_cloudhypervis.Agent.Lifecycle.{Inv, new-Inv}
use containerd_cloudhypervis.Agent.Calls.{
  create-Keeps, start-Keeps, run-Keeps, kill-Keeps, delete-Keeps, adopt-Keeps, adopt_missing,
  adopt_found, mark_stopped-Inv, exit_event-Inv, has_some,
}

-- The calls that reach the manager, and the exits of its containers.
pub data Call : Type 0 where
  creates : Text → CreateTrial → Call
  starts : Text → Option ℕ → Call
  runs : Text → CreateTrial → Option ℕ → Call
  kills : Text → KillOutcome → Call
  deletes : Text → Bool → Call
  adopts : Text → Text → Call
  stops : Text → ℕ → Call
  exits : Text → ExitStatus → Call

unfoldable pub call : Call → Manager → Manager
call (creates id t) s = (create id t s).1
call (starts id spawned) s = (start id spawned s).1
call (runs id t spawned) s = (run id t spawned s).1
call (kills id out) s = (kill id out s).1
call (deletes id executed) s = (delete id executed s).1
call (adopts old new) s = (adopt old new s).1
call (stops id code) s = mark_stopped id code s
call (exits id status) s = exit_event id status s

unfoldable pub call_all : List Call → Manager → Manager
unfolding call
call_all [] s = s
call_all (c ∷ cs) s = call_all cs (call c s)

call-Inv : (c : Call) (s : Manager) → Inv s → Inv (call c s)
unfolding call
call-Inv (creates id t) s v = (create-Keeps id t).keeps s v
call-Inv (starts id spawned) s v = (start-Keeps id spawned).keeps s v
call-Inv (runs id t spawned) s v = (run-Keeps id t spawned).keeps s v
call-Inv (kills id out) s v = (kill-Keeps id out).keeps s v
call-Inv (deletes id executed) s v = (delete-Keeps id executed).keeps s v
call-Inv (adopts old new) s v = (adopt-Keeps old new).keeps s v
call-Inv (stops id code) s v = mark_stopped-Inv id code s v
call-Inv (exits id status) s v = exit_event-Inv id status s v

call_all-Inv : (cs : List Call) (s : Manager) → Inv s → Inv (call_all cs s)
unfolding call_all
call_all-Inv [] s v = v
call_all-Inv (c ∷ cs) s v = call_all-Inv cs (call c s) (call-Inv c s v)

-- After any sequence of calls and exits, whatever their outcomes, no id is in a table twice, every
-- container has a pid, and a container that counts as running has an exit channel and a log buffer.
pub call_all-new-Inv : (cs : List Call) → Inv (call_all cs new)
call_all-new-Inv cs = call_all-Inv cs new new-Inv

-- `adopt` fails only for an unknown container, and then changes nothing. Otherwise it returns the
-- container's pid, and container, exit channel and log are found under the new id; the old id is
-- unknown, unless it is the new one.
pub adopt-moves :
    (cs : List Call) (old new_id : Text)
    → let s = call_all cs new in
      let (r, t) = adopt old new_id s in
      ((lookup old s.containers ≡ none) × (r ≡ err not_found) × (t ≡ s))
      ⊎ ((c : Container) × (pid : ℕ) × (lookup old s.containers ≡ some c)
          × (r ≡ ok pid)
          × (c.pid ≡ some pid)
          × (lookup new_id t.containers ≡ some c)
          × (old ≢ new_id → lookup old t.containers ≡ none)
          × ((x : Option ExitStatus)
              → lookup old s.exit_receivers ≡ some x
              → lookup new_id t.exit_receivers ≡ some x)
          × ((l : ContainerLogs) → lookup old s.logs ≡ some l → lookup new_id t.logs ≡ some l))
adopt-moves cs old new_id = by_entry (call_all cs new) (call_all-new-Inv cs) (Option-cases _)
  where
    by_entry :
        (s : Manager)
        → Inv s
        → (lookup old s.containers ≡ none) ⊎ ((c : Container) × (lookup old s.containers ≡ some c))
        → let (r, t) = adopt old new_id s in
          ((lookup old s.containers ≡ none) × (r ≡ err not_found) × (t ≡ s))
          ⊎ ((c : Container) × (pid : ℕ) × (lookup old s.containers ≡ some c)
              × (r ≡ ok pid)
              × (c.pid ≡ some pid)
              × (lookup new_id t.containers ≡ some c)
              × (old ≢ new_id → lookup old t.containers ≡ none)
              × ((x : Option ExitStatus)
                  → lookup old s.exit_receivers ≡ some x
                  → lookup new_id t.exit_receivers ≡ some x)
              × ((l : ContainerLogs) → lookup old s.logs ≡ some l → lookup new_id t.logs ≡ some l))
    by_entry s v (inl e) = inl (rw (adopt_missing old new_id s e) (e, refl, refl))
    by_entry s v (inr (c, e)) =
        let (pid, p) = has_some c.pid (v.kept old c e).has_pid in
        inr (
          rw (adopt_found old new_id s c pid e p) (
            c,
            pid,
            e,
            refl,
            p,
            ground (arith, lookup-insert new_id new_id c (remove old s.containers)),
            (λ n. ground (
              arith,
              lookup-insert new_id old c (remove old s.containers),
              lookup-remove_self old s.containers v.containers_distinct,
            )),
            (λ x h. (lookup-rename old new_id x s.exit_receivers v.channels_distinct h).0),
            (λ l h. (lookup-rename old new_id l s.logs v.logs_distinct h).0),
          ))
