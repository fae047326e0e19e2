-- ===== src/Daemon/Effects.antt =====
-- What the steps of api.rs leave alone: only the handlers touch the pool.
use containerd_cloudhypervis.Common.{
  ℕ, ◌≡◌, refl, ◌∙◌, Bool, true, false, Option, none, some, Text, Result, ok, err, insert, arith,
  if◌then◌else◌,
}
use containerd_cloudhypervis.Pool.State.{PoolVm}
use containerd_cloudhypervis.Daemon.State.{
  Daemon, Sent, Error, M, ◌>>=◌, ◌>>◌, return, attempt, attempt_with, modify, gets, send,
}
use containerd_cloudhypervis.Daemon.Network.{
  NetTrial, PodNetInfo, setup_vm_networking, configure_guest_network,
}
use containerd_cloudhypervis.Daemon.Vm.{
  RunContainerParams, RunTrial, network_if, agent_of, configure_if, run_container_in_vm,
}
use containerd_cloudhypervis.Daemon.Handlers.{
  AcquireRequest, AcquireTrial, run_if, trigger, trigger_if, warm_networking,
}

-- The pool and the snapshots are as before, whether the operation succeeds or not.
pub record Leaves {A : Type 0} (m : M A) : Type 0 where
  pub leaves : (s : Daemon) → (m s).1.manager ≡ s.manager

bind-Leaves :
    {A B : Type 0} (m : M A) (f : A → M B) → Leaves m → ((a : A) → Leaves (f a)) → Leaves (m >>= f)
bind-Leaves {A} {B} m f h k = record { leaves = λ s. by_result (m s).0 (m s).1 ∙ h.leaves s }
  where
    by_result :
        (r : Result Error A) (t : Daemon)
        → (let x : Result Error B × Daemon = elim r [ ok a ↦ f a t | err e ↦ (err e, t) ] in
            x).1.manager
          ≡ t.manager
    by_result (ok a) t = (k a).leaves t
    by_result (err e) t = refl

then-Leaves : {B : Type 0} (m : M (Unit {0})) (k : M B) → Leaves m → Leaves k → Leaves (m >> k)
then-Leaves m k h i = bind-Leaves m (λ _. k) h (λ _. i)

attempt-Leaves : (b : Bool) (e : Error) → Leaves (attempt b e)
attempt-Leaves true e = record { leaves = λ s. refl }
attempt-Leaves false e = record { leaves = λ s. refl }

attempt_with-Leaves : {A : Type 0} (o : Option A) (e : Error) → Leaves (attempt_with o e)
attempt_with-Leaves (some a) e = record { leaves = λ s. refl }
attempt_with-Leaves none e = record { leaves = λ s. refl }

send-Leaves : (x : Sent) → Leaves (send x)
send-Leaves x = record { leaves = λ s. refl }

return-Leaves : {A : Type 0} (a : A) → Leaves (return a)
return-Leaves a = record { leaves = λ s. refl }

gets-Leaves : {A : Type 0} (f : Daemon → A) → Leaves (gets f)
gets-Leaves f = record { leaves = λ s. refl }

if-Leaves : {A : Type 0} (b : Bool) (m k : M A) → Leaves m → Leaves k → Leaves (if b then m else k)
if-Leaves true m k h i = h
if-Leaves false m k h i = i

connect-Leaves :
    (vm_id vsock : Text) → Leaves (modify (λ s. record s { agents = insert vm_id vsock s.agents }))
connect-Leaves vm_id vsock = record { leaves = λ s. refl }

ruleset rules = (
  bind-Leaves, then-Leaves, attempt-Leaves, attempt_with-Leaves, send-Leaves, return-Leaves,
  gets-Leaves, if-Leaves, connect-Leaves,
)

setup_vm_networking-Leaves :
    (netns vm_id api : Text) (t : NetTrial) → Leaves (setup_vm_networking netns vm_id api t)
unfolding setup_vm_networking
setup_vm_networking-Leaves netns vm_id api t = search rules depth 20

configure_guest_network-Leaves :
    (agent cidr gateway : Text) (b : Bool) → Leaves (configure_guest_network agent cidr gateway b)
unfolding configure_guest_network
configure_guest_network-Leaves agent cidr gateway b = search rules depth 20

network_if-Leaves : (p : RunContainerParams) (t : NetTrial) → Leaves (network_if p t)
unfolding network_if
network_if-Leaves p t = search (rules, setup_vm_networking-Leaves) depth 20

agent_of-Leaves :
    (vm_id vsock : Text) (connected : Bool) (found : Option Text)
    → Leaves (agent_of vm_id vsock connected found)
unfolding agent_of
agent_of-Leaves vm_id vsock connected (some a) = return-Leaves a
agent_of-Leaves vm_id vsock connected none = search rules depth 20

configure_if-Leaves :
    (agent : Text) (info : Option PodNetInfo) (b : Bool) → Leaves (configure_if agent info b)
unfolding configure_if
configure_if-Leaves agent none b = return-Leaves tt
configure_if-Leaves agent (some info) b =
    configure_guest_network-Leaves agent info.ip_cidr info.gateway b

pub run_container_in_vm-Leaves :
    (p : RunContainerParams) (t : RunTrial) → Leaves (run_container_in_vm p t)
unfolding run_container_in_vm
run_container_in_vm-Leaves p t =
    search (rules, network_if-Leaves, agent_of-Leaves, configure_if-Leaves) depth 20

pub run_if-Leaves : (r : AcquireRequest) (vm : PoolVm) (t : RunTrial) → Leaves (run_if r vm t)
unfolding run_if
run_if-Leaves r vm t = search (rules, run_container_in_vm-Leaves) depth 20

pub warm_networking-Leaves :
    (r : AcquireRequest) (t : AcquireTrial) (vm : PoolVm) → Leaves (warm_networking r t vm)
unfolding warm_networking
warm_networking-Leaves r t vm = search (rules, setup_vm_networking-Leaves, guest_network) depth 20
  where
    guest_network :
        (agent cidr gateway : Text) (b : Bool)
        → Leaves (modify (λ s. (configure_guest_network agent cidr gateway b s).1))
    guest_network agent cidr gateway b = record {
      leaves = λ s. (configure_guest_network-Leaves agent cidr gateway b).leaves s;
    }

pub trigger_if-pool :
    (r : AcquireRequest) (m : Option ℕ) (s : Daemon)
    → (trigger_if r m s).manager.pool ≡ s.manager.pool
unfolding trigger_if trigger
trigger_if-pool r m s = ground arith
