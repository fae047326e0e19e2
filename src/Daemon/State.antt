-- ===== src/Daemon/State.antt =====
-- What the handlers of crates/daemon/src/api.rs share, with the record of the requests that they
-- send to Cloud Hypervisor and to the guest agents.
use containerd_cloudhypervis.Common.{
  ℕ, Bool, true, false, Option, none, some, List, ◌∷◌, Text, Result, ok, err,
}
use containerd_cloudhypervis.Pool.State.{Pool}
use containerd_cloudhypervis.Pool.State
use containerd_cloudhypervis.Shadow.Task.{Manager}
use containerd_cloudhypervis.Shadow.Task
use containerd_cloudhypervis.Shadow.Trigger.{Tasks}

-- What was done to a TAP (on the host, then in the pod's network namespace) or to the hypervisor at an
-- API socket, when it succeeded; and the requests sent to the agent at a vsock socket, however they
-- were answered.
pub data Sent : Type 0 where
  tap_prepared tap_activated : Text → Text → Sent
  add_net : Text → Text → Text → Sent
  add_disk : Text → Text → Text → Sent
  configure_network : Text → Text → ℕ → Text → Sent
  run_container : Text → Text → Sent
  kill_container : Text → Text → ℕ → Sent
  wait_container delete_container : Text → Text → Sent

-- `agents` names, for each VM, the vsock socket that its connection goes to. `replenishing` counts
-- the replenishments that were put off for 100 ms; `sent` is newest first.
pub record Daemon : Type 0 where
  pub manager : Manager
  pub tasks : Tasks
  pub agents : List (Text × Text)
  pub warm_counter : ℕ
  pub replenishing : ℕ
  pub sent : List Sent

pub data Error : Type 0 where
  pool_error : State.Error → Error
  shadow_error : Task.Error → Error
  state_dir prepare_tap hot_plug_tap activate_tap hot_plug_rootfs agent_connect : Error
  configure_failed run_failed ids_required not_active vm_id_required no_agent agent_failed : Error

abbrev pub M : Type 0 → Type 0
M A = Daemon → Result Error A × Daemon

infixl 5 ◌>>=◌ ◌>>◌
abbrev pub ◌>>=◌ : {A B : Type 0} → M A → (A → M B) → M B
◌>>=◌ m f s = let (r, t) = m s in elim r [ ok a ↦ f a t | err e ↦ (err e, t) ]

abbrev pub ◌>>◌ : {B : Type 0} → M (Unit {0}) → M B → M B
m >> k = m >>= λ _. k

abbrev pub return : {A : Type 0} → A → M A
return a s = (ok a, s)

abbrev pub attempt : Bool → Error → M (Unit {0})
attempt true e s = (ok tt, s)
attempt false e s = (err e, s)

abbrev pub attempt_with : {A : Type 0} → Option A → Error → M A
attempt_with (some a) e s = (ok a, s)
attempt_with none e s = (err e, s)

abbrev pub modify : (Daemon → Daemon) → M (Unit {0})
modify f s = (ok tt, f s)

abbrev pub gets : {A : Type 0} → (Daemon → A) → M A
gets f s = (ok (f s), s)

abbrev pub send : Sent → M (Unit {0})
send x = modify (λ s. record s { sent = x ∷ s.sent })

abbrev pub on_pool : (Pool → Pool) → Daemon → Daemon
on_pool f s = record s { manager = record s.manager { pool = f s.manager.pool } }

-- An operation of the pool, called by a handler.
abbrev pub in_pool : {A : Type 0} → State.M A → M A
in_pool m s =
    let (r, q) = m s.manager.pool in
    elim r [ ok a ↦ (ok a, on_pool (λ _. q) s) | err e ↦ (err (pool_error e), on_pool (λ _. q) s) ]
