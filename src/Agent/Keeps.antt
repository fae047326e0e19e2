-- ===== src/Agent/Keeps.antt =====
-- Operations of the container manager of container.rs that keep its invariant, put together step by
-- step.
use containerd_cloudhypervis.Common.{
  refl, Bool, true, false, Option, none, some, Result, ok, err, if◌then◌else◌,
}
use containerd_cloudhypervis.Agent.Manager.{
  Manager, Mount, Error, M, ◌>>=◌, ◌>>◌, attempt, attempt_with, modify, gets, return, add_mount,
}
use containerd_cloudhypervis.Agent.Lifecycle.{Inv, SameTables-Inv}

-- The state after the operation satisfies the invariant, whatever its result.
pub record Keeps {A : Type 0} (m : M A) : Type 0 where
  pub keeps : (s : Manager) → Inv s → Inv (m s).1

pub bind-Keeps :
    {A B : Type 0} (m : M A) (f : A → M B) → Keeps m → ((a : A) → Keeps (f a)) → Keeps (m >>= f)
bind-Keeps {A} {B} m f h k = record { keeps = λ s v. by_result (m s).0 (m s).1 (h.keeps s v) }
  where
    by_result :
        (r : Result Error A) (t : Manager)
        → Inv t
        → Inv
            (let x : Result Error B × Manager = elim r [ ok a ↦ f a t | err e ↦ (err e, t) ] in x).1
    by_result (ok a) t i = (k a).keeps t i
    by_result (err e) t i = i

pub then-Keeps : {B : Type 0} (m : M (Unit {0})) (k : M B) → Keeps m → Keeps k → Keeps (m >> k)
then-Keeps m k h i = bind-Keeps m (λ _. k) h (λ _. i)

pub attempt-Keeps : (b : Bool) (e : Error) → Keeps (attempt b e)
attempt-Keeps true e = record { keeps = λ s v. v }
attempt-Keeps false e = record { keeps = λ s v. v }

pub attempt_with-Keeps : {A : Type 0} (o : Option A) (e : Error) → Keeps (attempt_with o e)
attempt_with-Keeps (some a) e = record { keeps = λ s v. v }
attempt_with-Keeps none e = record { keeps = λ s v. v }

pub config_step-Keeps :
    (a b c : Bool) (e f : Error) → Keeps (if a then attempt b e else attempt c f)
config_step-Keeps true b c e f = attempt-Keeps b e
config_step-Keeps false b c e f = attempt-Keeps c f

pub add_mount-Keeps : (m : Mount) → Keeps (modify (add_mount m))
add_mount-Keeps m = record {
  keeps = λ s v. SameTables-Inv (record { containers = refl; channels = refl; logs = refl }) v;
}

pub modify-Keeps : (f : Manager → Manager) → ((s : Manager) → Inv s → Inv (f s)) → Keeps (modify f)
modify-Keeps f h = record { keeps = h }

pub return-Keeps : {A : Type 0} (a : A) → Keeps (return a)
return-Keeps a = record { keeps = λ s v. v }

pub gets-Keeps : {A : Type 0} (f : Manager → A) → Keeps (gets f)
gets-Keeps f = record { keeps = λ s v. v }

pub ruleset rules = (
  bind-Keeps, then-Keeps, attempt-Keeps, attempt_with-Keeps, gets-Keeps, add_mount-Keeps,
  return-Keeps,
)
