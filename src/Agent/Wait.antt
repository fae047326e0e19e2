-- ===== src/Agent/Wait.antt =====
-- What `WaitContainer` of server.rs tells its caller, and what a later `kill` makes of it.
use containerd_cloudhypervis.Common.{
  ℕ, ◌≡◌, refl, ap, ◌∙◌, Option, none, some, List, Text, ok, All, lookup, lookup-update,
  lookup-insert, arith,
}
use containerd_cloudhypervis.Agent.Manager.{
  Manager, Container, running, stopped, ExitStatus, KillOutcome, kill, start, mark_stopped,
  exit_event,
}
use containerd_cloudhypervis.Agent.History.{Call, call_all}
use containerd_cloudhypervis.Agent.Elsewhere.{IsElsewhere, call_all-SameFor}
use containerd_cloudhypervis.Agent.Server.{
  WaitOutcome, changed, sender_gone, timed_out, waited, report, wait_container,
}

mark_stopped-lookup :
    (id : Text) (code : ℕ) (s : Manager) (c : Container)
    → lookup id s.containers ≡ some c
    → lookup id (mark_stopped id code s).containers
      ≡ some (record c { state = stopped; exit_code = some code })
unfolding mark_stopped
mark_stopped-lookup id code s c h = ground (
  arith,
  lookup-update id id (λ (x : Container). record x { state = stopped; exit_code = some code })
      s.containers,
)

kill_stopped :
    (id : Text) (out : KillOutcome) (s : Manager) (c : Container)
    → lookup id s.containers ≡ some c
    → c.state ≡ stopped
    → kill id out s ≡ (ok tt, s)
unfolding kill
kill_stopped id out s c h e = ground arith

-- Once the exit of a known container has been published, every `WaitContainer` returns exactly
-- that status, at once and again and again; the container is recorded as stopped with that code,
-- and `kill` answers without running crun.
pub wait_container-exited :
    (id : Text) (status : ExitStatus) (meanwhile : Manager → Manager) (out : WaitOutcome) (now : ℕ)
    (s : Manager) (c : Container)
    → lookup id s.containers ≡ some c
    → lookup id s.exit_receivers ≡ some (some status)
    → let (r, t) = wait_container id meanwhile out now s in
      (r ≡ some status)
      × ((wait_container id meanwhile out now t).0 ≡ some status)
      × (lookup id t.containers ≡ some (record c { state = stopped; exit_code = some status.code }))
      × ((k : KillOutcome) → kill id k t ≡ (ok tt, t))
unfolding wait_container report
wait_container-exited id status meanwhile out now s c h e =
    let m = mark_stopped-lookup id status.code s c h in
    let same : (mark_stopped id status.code s).exit_receivers ≡ s.exit_receivers =
      unfold mark_stopped in refl in
    rw (e, wait_container)
      (
        refl,
        ground (arith, e, same),
        m,
        λ k. kill_stopped id k (mark_stopped id status.code s) _ m refl,
      )

-- A wait that runs into its limit of 600 seconds reports code 137 for a container that still runs
-- and has not exited, and records it as stopped: from then on `kill` reports success and signals
-- nothing.
pub wait_container-timeout :
    (id : Text) (meanwhile : Manager → Manager) (now : ℕ) (s : Manager) (c : Container)
    → lookup id s.exit_receivers ≡ some none
    → lookup id (meanwhile s).containers ≡ some c
    → c.state ≡ running
    → lookup id (meanwhile s).exit_receivers ≡ some none
    → let (r, t) = wait_container id meanwhile timed_out now s in
      (r ≡ some (record { code = 137; exited_at = now }))
      × (lookup id t.exit_receivers ≡ some none)
      × ((k : KillOutcome) → kill id k t ≡ (ok tt, t))
unfolding wait_container report waited
wait_container-timeout id meanwhile now s c e h r alive =
    let m = mark_stopped-lookup id 137 (meanwhile s) c h in
    rw (e, wait_container)
      (
        refl,
        unfold mark_stopped in alive,
        λ k. kill_stopped id k (mark_stopped id 137 (meanwhile s)) _ m refl,
      )

-- What ends the `select!` of a handler that waits on a channel whose value has changed.
abbrev pub shown : Text → Manager → WaitOutcome
shown id s = elim (lookup id s.exit_receivers) [ none ↦ sender_gone | some value ↦ changed value ]

-- The state once a container has exited, with calls about other containers, and signals, around it.
abbrev pub exited_among : Text → ExitStatus → List Call → List Call → Manager → Manager
exited_among id status before after s = call_all after (exit_event id status (call_all before s))

exit_event-lookup :
    (id : Text) (status : ExitStatus) (s : Manager) (x : Option ExitStatus)
    → lookup id s.exit_receivers ≡ some x
    → lookup id (exit_event id status s).exit_receivers ≡ some (some status)
unfolding exit_event
exit_event-lookup id status s x h =
    ground (arith, lookup-update id id (λ (_ : Option ExitStatus). some status) s.exit_receivers)

module _ (id : Text) (status : ExitStatus) (before after : List Call) (s : Manager)
    (quiet_before : All (IsElsewhere id) before) (quiet_after : All (IsElsewhere id) after) where
  exited_among-container :
      lookup id (exited_among id status before after s).containers ≡ lookup id s.containers
  unfolding exit_event
  exited_among-container =
      let exited = exit_event id status (call_all before s) in
      (call_all-SameFor id after exited quiet_after).container
      ∙ (call_all-SameFor id before s quiet_before).container

  exited_among-channel :
      {x : Option ExitStatus}
      → lookup id s.exit_receivers ≡ some x
      → lookup id (exited_among id status before after s).exit_receivers ≡ some (some status)
  exited_among-channel {x} h =
      let waiting = call_all before s in
      (call_all-SameFor id after (exit_event id status waiting) quiet_after).channel
      ∙ exit_event-lookup id status waiting x
          ((call_all-SameFor id before s quiet_before).channel ∙ h)

started-lookup :
    (id : Text) (pid : ℕ) (s : Manager) (c : Container)
    → lookup id s.containers ≡ some c
    → let (r, t) = start id (some pid) s in
      (r ≡ ok pid)
      × (lookup id t.containers ≡ some (record c { state = running; pid = some pid }))
      × (lookup id t.exit_receivers ≡ some none)
unfolding start
started-lookup id pid s c h = ground (
  arith,
  lookup-insert {V = Option ExitStatus} id id none s.exit_receivers,
  lookup-update id id (λ (x : Container). record x { state = running; pid = some pid })
      s.containers,
)

wait_container_changed :
    (id : Text) (status : ExitStatus) (meanwhile : Manager → Manager) (now : ℕ) (s : Manager)
    → lookup id s.exit_receivers ≡ some none
    → wait_container id meanwhile (changed (some status)) now s
      ≡ (some status, mark_stopped id status.code (meanwhile s))
unfolding wait_container report waited
wait_container_changed id status meanwhile now s e = rw (e, wait_container) refl

wait_container_shown :
    (id : Text) (status : ExitStatus) (meanwhile : Manager → Manager) (now : ℕ) (s : Manager)
    → lookup id s.exit_receivers ≡ some none
    → lookup id (meanwhile s).exit_receivers ≡ some (some status)
    → wait_container id meanwhile (shown id (meanwhile s)) now s
      ≡ (some status, mark_stopped id status.code (meanwhile s))
wait_container_shown id status meanwhile now s e h =
    let shows : shown id (meanwhile s) ≡ changed (some status) = rw (h, shown) refl in
    ap (λ out. wait_container id meanwhile out now s) shows
    ∙ wait_container_changed id status meanwhile now s e

-- From start to exit: if a known container is started, a `WaitContainer` begins while it runs, the
-- container exits, and before and after the exit the manager only gets calls about other containers
-- and signals for any of them, then the change of the channel, where it is seen before the limit of
-- 600 seconds, has the handler report exactly the status of the exit, and it records the container
-- as stopped with that code and with the pid of the start; a later `kill` runs no crun.
pub start-exit-waited :
    (id : Text) (pid : ℕ) (status : ExitStatus) (before after : List Call) (now : ℕ) (s : Manager)
    (c : Container)
    → lookup id s.containers ≡ some c
    → All (IsElsewhere id) before
    → All (IsElsewhere id) after
    → let (started, t) = start id (some pid) s in
      let meanwhile = exited_among id status before after in
      let (r, u) = wait_container id meanwhile (shown id (meanwhile t)) now t in
      (started ≡ ok pid)
      × (r ≡ some status)
      × (lookup id u.containers
          ≡ some (record { pid = some pid; exit_code = some status.code; state = stopped }))
      × ((k : KillOutcome) → kill id k u ≡ (ok tt, u))
start-exit-waited id pid status before after now s c h quiet_before quiet_after =
    let (same, running_c, unset) = started-lookup id pid s c h in
    let t = (start id (some pid) s).1 in
    let over = exited_among id status before after t in
    let channel = exited_among-channel id status before after t quiet_before quiet_after unset in
    let known =
      exited_among-container id status before after t quiet_before quiet_after ∙ running_c in
    let m = mark_stopped-lookup id status.code over _ known in
    rw (wait_container_shown id status (exited_among id status before after) now t unset channel)
      (same, refl, m, λ k. kill_stopped id k (mark_stopped id status.code over) _ m refl)
