-- ===== src/Agent/Signals.antt =====
-- container.rs `signal_all`: which containers are signalled when the agent shuts down.
use containerd_cloudhypervis.Common.{
  ℕ, suc, ◌+◌, ◌≡◌, refl, ap, ◌∙◌, Bool, true, false, not, Option, none, some, List, [], ◌∷◌, Text,
  lookup, arith, if◌then◌else◌, All, All-mono, Distinct, Text-discrete, ite, Bool-cases, inl, inr,
}
use containerd_cloudhypervis.Agent.Manager.{
  Manager, Container, KillOutcome, kill, killed, is_stopped, live_ids, kill_each, signal_all,
}

-- How often an id stands in a list.
abbrev pub times : Text → List Text → ℕ
times id [] = 0
times id (x ∷ xs) = ite (Text-discrete x id) (suc (times id xs)) (times id xs)

-- A container of that id is known and has not stopped.
abbrev pub is_live : Option Container → Bool
is_live none = false
is_live (some c) = not (is_stopped (some c))

Live : List (Text × Container) → Text → Type 0
Live m id = is_live (lookup id m) ≡ true

killed_state : (out : KillOutcome) (s : Manager) → (killed out s).1 ≡ s
killed_state KillOutcome.not_executed s = refl
killed_state KillOutcome.delivered s = refl
killed_state KillOutcome.gone s = refl
killed_state KillOutcome.refused s = refl

kill-live :
    (id : Text) (out : KillOutcome) (s : Manager)
    → is_live (lookup id s.containers) ≡ true
    → (kill id out s).1 ≡ record s { crun_kills = id ∷ s.crun_kills }
unfolding kill
kill-live id out s h =
    let running : is_stopped (lookup id s.containers) ≡ false =
      live-running (lookup id s.containers) h in
    rw (running, kill) (killed_state out (record s { crun_kills = id ∷ s.crun_kills }))
  where
    live-running : (o : Option Container) → is_live o ≡ true → is_stopped o ≡ false
    live-running none h = cc
    live-running (some c) h = ground arith

kill_each-times :
    (ids : List Text) (out : Text → KillOutcome) (s : Manager)
    → All (Live s.containers) ids
    → let t = kill_each ids out s in
      (t.containers ≡ s.containers)
      × ((id : Text) → times id t.crun_kills ≡ times id s.crun_kills + times id ids)
unfolding kill_each Live
kill_each-times [] out s h = (refl, (λ id. omega arith))
kill_each-times (x ∷ ids) out s h =
    let after = record s { crun_kills = x ∷ s.crun_kills } in
    let rest = kill_each-times ids out after h.1 in
    rw (kill-live x (out x) s h.0, kill_each) (rest.0, (λ id. ground (arith, rest.1 id)))

live_ids-Live : (m : List (Text × Container)) → Distinct m → All (Live m) (live_ids m)
unfolding live_ids Live lookup
live_ids-Live [] d = tt
live_ids-Live ((k, c) ∷ m) d =
    let rest = live_ids-Live m d.1 in
    let lifted = All-mono (λ j h. lift j h) (live_ids m) rest in
    elim (Bool-cases (is_stopped (some c))) [ inl e ↦ rw e lifted | inr e ↦ rw e (head e, lifted) ]
  where
    lift :
        (j : Text)
        → is_live (lookup j m) ≡ true
        → is_live (ite (Text-discrete k j) (some c) (lookup j m)) ≡ true
    lift j h = elim (Text-discrete k j) [
      | yes same ↦ absurd (ground (arith, ap (λ x. lookup x m) same))
      | no other ↦ ground (arith, other)
    ]

    head :
        is_stopped (some c) ≡ false → is_live (ite (Text-discrete k k) (some c) (lookup k m)) ≡ true
    head e = ground (arith, e)

live_ids-times :
    (id : Text) (m : List (Text × Container))
    → Distinct m
    → times id (live_ids m) ≡ (if is_live (lookup id m) then 1 else 0)
unfolding live_ids lookup
live_ids-times id [] d = refl
live_ids-times id ((k, c) ∷ m) d = ground (arith, live_ids-times id m d.1)

-- `signal_all` runs `crun kill` exactly once on each container that has not stopped, and on no
-- other id, whatever comes of the single kills, if no id is in the table twice; it changes no
-- container.
pub signal_all-once :
    (out : Text → KillOutcome) (s : Manager) (id : Text)
    → Distinct s.containers
    → let t = signal_all out s in
      (t.containers ≡ s.containers)
      × (times id t.crun_kills
          ≡ times id s.crun_kills + (if is_live (lookup id s.containers) then 1 else 0))
unfolding signal_all
signal_all-once out s id d =
    let sent = kill_each-times (live_ids s.containers) out s (live_ids-Live s.containers d) in
    (sent.0, sent.1 id ∙ ap (λ n. times id s.crun_kills + n) (live_ids-times id s.containers d))
