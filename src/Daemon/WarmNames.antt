-- ===== src/Daemon/WarmNames.antt =====
-- api.rs: the names of the warm VMs, which `handle_acquire` registers in the pool of pool.rs.
use containerd_cloudhypervis.Common.{
  ℕ, suc, ◌+◌, ◌^◌, ◌<◌, ◌≤◌, ◌≡◌, ◌≢◌, refl, sym, ◌∙◌, subst, Bool, List, [], ◌∷◌, ◌++◌, Text,
  codes, show_dec, show_dec-injective, append-left_cancel, length, arith, All, Lacks,
}
use containerd_cloudhypervis.Pool.State.{Config, PoolVm, pool_id}
use containerd_cloudhypervis.Pool.Restore.{BaseTrial, Trial}
use containerd_cloudhypervis.Pool.Ops.{Call, run, initialize, new}
use containerd_cloudhypervis.Pool.Invariant.{Inv}
use containerd_cloudhypervis.Pool.Registered.{registered, IsForeign, Apart}
use containerd_cloudhypervis.Pool.History.{run-initialize-Inv}
use containerd_cloudhypervis.Daemon.Handlers.{warm_id}
use containerd_cloudhypervis.Daemon.Names.{show_dec-Lacks_below}

Lacks-ne : (d : ℕ) (xs ys : Text) → ¬ Lacks d (xs ++ d ∷ ys)
Lacks-ne d [] ys h = h.0 refl
Lacks-ne d (x ∷ xs) ys h = Lacks-ne d xs ys h.1

-- What follows the last byte of a kind is determined.
last_part : (d : ℕ) (xs ys a b : Text) → Lacks d a → Lacks d b → xs ++ d ∷ a ≡ ys ++ d ∷ b → a ≡ b
last_part d [] [] a b h k e = cc
last_part d [] (y ∷ ys) a b h k e =
    let same : a ≡ ys ++ d ∷ b = cc in absurd (Lacks-ne d ys b (subst (Lacks d) same h))
last_part d (x ∷ xs) [] a b h k e =
    let same : xs ++ d ∷ a ≡ b = cc in absurd (Lacks-ne d xs a (subst (Lacks d) (sym same) k))
last_part d (x ∷ xs) (y ∷ ys) a b h k e = last_part d xs ys a b h k (cc)

-- Two warm VMs with one name have one number.
warm_id-injective : (j k : Text) (m n : ℕ) → warm_id j m ≡ warm_id k n → m ≡ n
unfolding warm_id
warm_id-injective j k m n e = show_dec-injective m n (
    last_part b'-' j k (show_dec m) (show_dec n) (show_dec-Lacks_below b'-' m (omega arith))
      (show_dec-Lacks_below b'-' n (omega arith))
      (append-left_cancel (codes "warm-") (j ++ b'-' ∷ show_dec m) (k ++ b'-' ∷ show_dec n) e))

warm_id-ne-pool_id : (key : Text) (seq pid c : ℕ) → warm_id key seq ≢ pool_id pid c
unfolding warm_id pool_id
warm_id-ne-pool_id key seq pid c e = ground arith

-- VMs with the names that `handle_acquire` gives, for any images, with the counter going up.
abbrev pub Numbered : ℕ → List PoolVm → Type 0
Numbered n [] = Unit {0}
Numbered n (vm ∷ vms) = ((key : Text) × (vm.vm_id ≡ warm_id key n)) × Numbered (suc n) vms

Numbered-IsForeign : (pid n : ℕ) (vms : List PoolVm) → Numbered n vms → All (IsForeign pid) vms
Numbered-IsForeign pid n [] h = tt
Numbered-IsForeign pid n (vm ∷ vms) ((key, name), h) =
    (λ c e. warm_id-ne-pool_id key n pid c (sym name ∙ e), Numbered-IsForeign pid (suc n) vms h)

later_ones :
    (m n : ℕ) (vm : PoolVm) (key : Text) (vms : List PoolVm)
    → vm.vm_id ≡ warm_id key m
    → suc m ≤ n
    → Numbered n vms
    → All (λ (v : PoolVm). v.vm_id ≢ vm.vm_id) vms
later_ones m n vm key [] name h later = tt
later_ones m n vm key (v ∷ vms) name h ((other, its_name), later) = (
  λ e.
      absurd (
        let same = warm_id-injective other key n m (sym its_name ∙ e ∙ name) in
        omega (arith, same)),
  later_ones m (suc n) vm key vms name (omega arith) later,
)

-- The warm VMs of a daemon have names of their own: the pool gives them to none of its VMs, and no
-- two are equal.
Numbered-Apart : (n : ℕ) (vms : List PoolVm) → Numbered n vms → Apart vms
Numbered-Apart n [] h = tt
Numbered-Apart n (vm ∷ vms) ((key, name), h) =
    (later_ones n (suc n) vm key vms name (omega arith) h, Numbered-Apart (suc n) vms h)

-- The invariant of the pool, where the VMs that are registered are the warm VMs of the daemon.
warm_pool-Inv :
    (valid : Bool) (base : BaseTrial) (trials : ℕ → Trial) (c : Config) (cs : List Call) (n : ℕ)
    → 4 + c.pool_size + length cs < 2 ^ 64
    → Numbered n (registered cs)
    → let p = run cs (initialize valid base trials (new c)).1 in
      Inv p × (length p.ready ≤ p.pool_size)
warm_pool-Inv valid base trials c cs n h named =
    run-initialize-Inv valid base trials c cs h (Numbered-IsForeign c.daemon_pid n _ named)
      (Numbered-Apart n _ named)
