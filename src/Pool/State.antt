-- ===== src/Pool/State.antt =====
-- The state of crates/daemon/src/pool.rs, with the processes and directories of the host that the
-- daemon has made, and the chain of fallible steps that its operations are.
use containerd_cloudhypervis.Common.{
  ℕ, ◌+◌, ◌%◌, ◌^◌, Bool, true, false, Option, none, some, List, [], ◌∷◌, ◌++◌, Text, codes,
  show_dec, Result, ok, err, if◌then◌else◌, ◌==◌, Text-discrete, ite,
}

-- `created_at` is written and never read.
pub record PoolVm : Type 0 where
  pub vm_id : Text
  pub api_socket : Text
  pub vsock_socket : Text
  pub cid : ℕ
  pub ch_pid : ℕ

-- Cloud Hypervisor processes that run, by pid, and the directories that were created.
pub record Host : Type 0 where
  pub processes : List ℕ
  pub dirs : List Text

-- The fields of the daemon's configuration that the pool reads.
pub record Config : Type 0 where
  pub pool_size : ℕ
  pub state_dir : Text
  pub daemon_pid : ℕ

-- The head of `ready` is the end of the vector, where `push` and `pop` work.
pub record Pool : Type 0 where
  pub config : Config
  pub open config use *
  pub ready : List PoolVm
  pub active : List (Text × PoolVm)
  pub active_count : ℕ
  pub next_cid : ℕ
  pub host : Host

pub data Error : Type 0 where
  create_dir link_snapshot spawn write_pid ch_not_ready ch_api no_agent : Error

-- An operation on the pool that may fail. What it did before a failure stays done.
abbrev pub M : Type 0 → Type 0
M A = Pool → Result Error A × Pool

infixl 5 ◌>>=◌ ◌>>◌
abbrev pub ◌>>=◌ : {A B : Type 0} → M A → (A → M B) → M B
◌>>=◌ m f p = let (r, q) = m p in elim r [ ok a ↦ f a q | err e ↦ (err e, q) ]

abbrev pub ◌>>◌ : {B : Type 0} → M (Unit {0}) → M B → M B
m >> k = m >>= λ _. k

abbrev pub return : {A : Type 0} → A → M A
return a p = (ok a, p)

-- `?` on a step whose outcome the environment decides.
abbrev pub attempt : Bool → Error → M (Unit {0})
attempt true e p = (ok tt, p)
attempt false e p = (err e, p)

abbrev pub attempt_with : {A : Type 0} → Option A → Error → M A
attempt_with (some a) e p = (ok a, p)
attempt_with none e p = (err e, p)

abbrev pub modify : (Pool → Pool) → M (Unit {0})
modify f p = (ok tt, f p)

abbrev pub read_config : M Config
read_config p = (ok p.config, p)

-- `AtomicU64` and `AtomicUsize` wrap.
abbrev pub u64 : ℕ → ℕ
u64 n = n % 2 ^ 64

-- format!("pool-{}-{}", std::process::id(), next_cid)
unfoldable pub pool_id : ℕ → ℕ → Text
pool_id pid cid = codes "pool-" ++ show_dec pid ++ b'-' ∷ show_dec cid

unfoldable pub next_cid_pub : M ℕ
next_cid_pub p = (ok p.next_cid, record p { next_cid = u64 (p.next_cid + 1) })

-- The process with this pid is no more.
unfoldable pub reap : ℕ → List ℕ → List ℕ
reap pid [] = []
reap pid (x ∷ xs) = if x == pid then reap pid xs else x ∷ reap pid xs

-- `remove_dir_all` on a directory of the daemon.
unfoldable pub remove_dir : Text → List Text → List Text
unfolding Text-discrete
remove_dir d [] = []
remove_dir d (x ∷ xs) = ite (Text-discrete x d) (remove_dir d xs) (x ∷ remove_dir d xs)
