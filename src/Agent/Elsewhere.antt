-- ===== src/Agent/Elsewhere.antt =====
-- What the calls of the container manager of container.rs leave alone: the entries of a container
-- that they are not about.
use containerd_cloudhypervis.Common.{
  ℕ, ◌≡◌, ◌≢◌, refl, ◌∙◌, inl, inr, Bool, true, false, Option, none, some, List, [], ◌∷◌, Text,
  Result, ok, err, lookup, update, remove, Text-discrete, ite, arith, if◌then◌else◌, All,
  Option-cases, lookup-insert, lookup-update, lookup-remove_ne,
}
use containerd_cloudhypervis.Agent.Manager.{
  Manager, Container, Mount, Error, ExitStatus, M, ◌>>=◌, ◌>>◌, attempt, attempt_with, modify, gets,
  return, add_mount, CreateTrial, LayerTrial, create, create_rest, mount_layers, start, started,
  run, delete, adopt, rename, mark_stopped, exit_event, set_container, renamed,
}
use containerd_cloudhypervis.Agent.Tables.{rename-none, rename-some}
use containerd_cloudhypervis.Agent.Lifecycle.{SameTables, mount_layers-SameTables}
use containerd_cloudhypervis.Agent.Calls.{kill-SameTables}
use containerd_cloudhypervis.Agent.History.{
  Call, creates, starts, runs, kills, deletes, adopts, stops, exits, call, call_all,
}

-- The call is about another container, or only sends a signal.
abbrev pub IsElsewhere : Text → Call → Type 0
IsElsewhere id (creates other t) = other ≢ id
IsElsewhere id (starts other spawned) = other ≢ id
IsElsewhere id (runs other t spawned) = other ≢ id
IsElsewhere id (kills other out) = Unit {0}
IsElsewhere id (deletes other executed) = other ≢ id
IsElsewhere id (adopts old new) = (old ≢ id) × (new ≢ id)
IsElsewhere id (stops other code) = other ≢ id
IsElsewhere id (exits other status) = other ≢ id

-- The container and its exit channel are as before.
pub record SameFor (id : Text) (s t : Manager) : Type 0 where
  pub container : lookup id t.containers ≡ lookup id s.containers
  pub channel : lookup id t.exit_receivers ≡ lookup id s.exit_receivers

SameFor-refl : {id : Text} {s : Manager} → SameFor id s s
SameFor-refl = record { container = refl; channel = refl }

SameFor-trans : {id : Text} {s t u : Manager} → SameFor id s t → SameFor id t u → SameFor id s u
SameFor-trans h k = record {
  container = k.container ∙ h.container;
  channel = k.channel ∙ h.channel;
}

SameTables-SameFor : {id : Text} {s t : Manager} → SameTables s t → SameFor id s t
SameTables-SameFor e = record { container = rw e.containers refl; channel = rw e.channels refl }

record Spares {A : Type 0} (id : Text) (m : M A) : Type 0 where
  spares : (s : Manager) → SameFor id s (m s).1

bind-Spares :
    {A B : Type 0} {id : Text} (m : M A) (f : A → M B)
    → Spares id m
    → ((a : A) → Spares id (f a))
    → Spares id (m >>= f)
bind-Spares {A} {B} {id} m f h k = record {
  spares = λ s. SameFor-trans (h.spares s) (by_result (m s).0 (m s).1);
}
  where
    by_result :
        (r : Result Error A) (t : Manager)
        → SameFor id t
            (let x : Result Error B × Manager = elim r [ ok a ↦ f a t | err e ↦ (err e, t) ] in x).1
    by_result (ok a) t = (k a).spares t
    by_result (err e) t = SameFor-refl

then-Spares :
    {B : Type 0} {id : Text} (m : M (Unit {0})) (k : M B)
    → Spares id m
    → Spares id k
    → Spares id (m >> k)
then-Spares m k h i = bind-Spares m (λ _. k) h (λ _. i)

attempt-Spares : {id : Text} (b : Bool) (e : Error) → Spares id (attempt b e)
attempt-Spares true e = record { spares = λ s. SameFor-refl }
attempt-Spares false e = record { spares = λ s. SameFor-refl }

attempt_with-Spares :
    {A : Type 0} {id : Text} (o : Option A) (e : Error) → Spares id (attempt_with o e)
attempt_with-Spares (some a) e = record { spares = λ s. SameFor-refl }
attempt_with-Spares none e = record { spares = λ s. SameFor-refl }

config_step-Spares :
    {id : Text} (a b c : Bool) (e f : Error) → Spares id (if a then attempt b e else attempt c f)
config_step-Spares true b c e f = attempt-Spares b e
config_step-Spares false b c e f = attempt-Spares c f

return-Spares : {A : Type 0} {id : Text} (a : A) → Spares id (return a)
return-Spares a = record { spares = λ s. SameFor-refl }

gets-Spares : {A : Type 0} {id : Text} (f : Manager → A) → Spares id (gets f)
gets-Spares f = record { spares = λ s. SameFor-refl }

add_mount-Spares : {id : Text} (m : Mount) → Spares id (modify (add_mount m))
add_mount-Spares m = record { spares = λ s. record { container = refl; channel = refl } }

set_container-Spares :
    {id other : Text} → other ≢ id → (c : Container) → Spares id (modify (set_container other c))
set_container-Spares {id} {other} n c = record {
  spares = λ s. record {
    container = ground (arith, lookup-insert other id c s.containers);
    channel = refl;
  };
}

lookup-update_ne :
    {V : Type 0} (other id : Text) (f : V → V) (m : List (Text × V))
    → other ≢ id
    → lookup id (update other f m) ≡ lookup id m
lookup-update_ne other id f m n = lookup-update other id f m ∙ ite_no (Text-discrete other id) _ _ n
  where
    ite_no : {A P : Type 0} (d : Dec P) (x y : A) → ¬ P → ite d x y ≡ y
    ite_no (yes p) x y n = absurd (n p)
    ite_no (no q) x y n = refl

started-Spares : {id other : Text} → other ≢ id → (pid : ℕ) → Spares id (modify (started other pid))
unfolding started
started-Spares {id} {other} n pid = record {
  spares = λ s. record {
    container = lookup-update_ne other id _ s.containers n;
    channel = ground (arith, lookup-insert {V = Option ExitStatus} other id none s.exit_receivers);
  };
}

removed-Spares :
    {id other : Text}
    → other ≢ id
    → Spares id (modify (λ s. record s { containers = remove other s.containers }))
removed-Spares {id} {other} n = record {
  spares = λ s. record { container = lookup-remove_ne other id s.containers n; channel = refl };
}

mount_layers-Spares :
    {id : Text} (n i : ℕ) (layers : ℕ → LayerTrial) (dir : Text)
    → Spares id (mount_layers n i layers dir)
mount_layers-Spares n i layers dir = record {
  spares = λ s. SameTables-SameFor (mount_layers-SameTables n i layers dir s);
}

ruleset rules = (
  bind-Spares, then-Spares, attempt-Spares, attempt_with-Spares, gets-Spares, add_mount-Spares,
  return-Spares,
)

create_rest-Spares :
    {id other : Text} (n : other ≢ id) (t : CreateTrial) (lowerdirs : List Text)
    → Spares id (create_rest other t lowerdirs)
unfolding create_rest
create_rest-Spares n t lowerdirs = then-Spares _ _ (attempt-Spares t.overlay_mounted _) (
    then-Spares _ _ (add_mount-Spares _) (
      then-Spares _ _ (config_step-Spares t.config_inline t.config_written t.config_on_disk _ _) (
        then-Spares _ _ (attempt-Spares t.volumes_written _) (
          then-Spares _ _ (attempt-Spares t.spec_adapted _)
            (then-Spares _ _ (set_container-Spares n _) (return-Spares t.agent_pid))))))

create-Spares : {id other : Text} (n : other ≢ id) (t : CreateTrial) → Spares id (create other t)
unfolding create
create-Spares n t =
    let rest = create_rest-Spares n t in search (rules, mount_layers-Spares, rest) depth 20

start-Spares :
    {id other : Text} (n : other ≢ id) (spawned : Option ℕ) → Spares id (start other spawned)
unfolding start
start-Spares n spawned = let all = started-Spares n in search (rules, all) depth 20

run-Spares :
    {id other : Text} (n : other ≢ id) (t : CreateTrial) (spawned : Option ℕ)
    → Spares id (run other t spawned)
unfolding run
run-Spares n t spawned = bind-Spares _ _ (create-Spares n t) (λ _. start-Spares n spawned)

delete-Spares :
    {id other : Text} (n : other ≢ id) (executed : Bool) → Spares id (delete other executed)
unfolding delete
delete-Spares n executed = search (rules, removed-Spares) depth 20

lookup-rename_ne :
    {V : Type 0} (old new id : Text) (m : List (Text × V))
    → old ≢ id
    → new ≢ id
    → lookup id (rename old new m) ≡ lookup id m
lookup-rename_ne old new id m n k = elim (Option-cases (lookup old m)) [
  | inl absent ↦ rw (rename-none old new m absent) refl
  | inr (v, found) ↦
      rw (rename-some old new v m found)
        (ground (arith, lookup-insert new id v (remove old m), lookup-remove_ne old id m n))
]

renamed-Spares :
    {id old new : Text}
    → old ≢ id
    → new ≢ id
    → (c : Container) → Spares id (modify (renamed old new c))
renamed-Spares {id} {old} {new} n k c = record {
  spares = λ s. record {
    container = ground (arith, lookup-insert new id c s.containers);
    channel = lookup-rename_ne old new id s.exit_receivers n k;
  };
}

adopt-Spares : {id old new : Text} → old ≢ id → new ≢ id → Spares id (adopt old new)
unfolding adopt
adopt-Spares n k = search (rules, removed-Spares, renamed-Spares) depth 20

-- A call about another container leaves the container and its exit channel as they were.
call-SameFor : (id : Text) (c : Call) (s : Manager) → IsElsewhere id c → SameFor id s (call c s)
unfolding call mark_stopped exit_event
call-SameFor id (creates other t) s n = (create-Spares n t).spares s
call-SameFor id (starts other spawned) s n = (start-Spares n spawned).spares s
call-SameFor id (runs other t spawned) s n = (run-Spares n t spawned).spares s
call-SameFor id (kills other out) s n = SameTables-SameFor (kill-SameTables other out s)
call-SameFor id (deletes other executed) s n = (delete-Spares n executed).spares s
call-SameFor id (adopts old new) s (n, k) = (adopt-Spares n k).spares s
call-SameFor id (stops other code) s n = record {
  container = lookup-update_ne other id _ s.containers n;
  channel = refl;
}
call-SameFor id (exits other status) s n = record {
  container = refl;
  channel = lookup-update_ne other id _ s.exit_receivers n;
}

pub call_all-SameFor :
    (id : Text) (cs : List Call) (s : Manager)
    → All (IsElsewhere id) cs
    → SameFor id s (call_all cs s)
unfolding call_all
call_all-SameFor id [] s all = SameFor-refl
call_all-SameFor id (c ∷ cs) s (n, all) =
    SameFor-trans (call-SameFor id c s n) (call_all-SameFor id cs (call c s) all)
