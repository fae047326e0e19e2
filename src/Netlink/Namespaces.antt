-- ===== src/Netlink/Namespaces.antt =====
-- crates/daemon/src/netns.rs and crates/shim/src/netns.rs: work in the network namespace of a pod,
-- on a Netlink socket that is opened there.
use containerd_cloudhypervis.Common.{
  ℕ, zero, suc, Bool, true, false, Option, none, some, List, [], ◌∷◌, ◌++◌, Text, codes, Result, ok,
  err, if◌then◌else◌, show_dec,
}
use containerd_cloudhypervis.Netlink.Bytes.{Fault}
use containerd_cloudhypervis.Netlink.Socket.{
  NlError, Socket, M, pure, fail, done, failed, blocked, stops,
}
use containerd_cloudhypervis.Netlink.Socket as Socket
use containerd_cloudhypervis.Netlink.Configure.{caught}

-- A namespace: that of the process, or the one at a path.
abbrev pub Namespace : Type 0
Namespace = Option Text

-- The namespace that the thread is in, the Netlink sockets that were used and closed, each with the
-- namespace it was opened in, and the TAPs that were made.
pub record Host : Type 0 where
  pub here : Namespace
  pub used : List (Namespace × Socket)
  pub taps : List (Namespace × Text)

-- As the outcomes of a call on one socket.
pub data Ran (A : Type 0) : Type 0 where
  came : A → Host → Ran A
  fell : NlError → Host → Ran A
  hangs : Ran A
  faults : Fault → Ran A

abbrev pub T : Type 0 → Type 0
T A = Host → Ran A

infixl 5 ◌>>=◌ ◌>>◌
abbrev pub ◌>>=◌ : {A B : Type 0} → T A → (A → T B) → T B
◌>>=◌ m f h = elim (m h) [
  | came a g ↦ f a g
  | fell e g ↦ fell e g
  | hangs ↦ hangs
  | faults f' ↦ faults f'
]

abbrev pub ◌>>◌ : {A B : Type 0} → T A → T B → T B
m >> k = m >>= (λ _. k)

abbrev pub return : {A : Type 0} → A → T A
return a h = came a h

-- `.context(text)` on a call: the error that shows the text still has its number.
unfoldable pub context : {A : Type 0} → Text → M A → M A
unfolding caught
context text m = caught m (λ e. fail (record e { shown = text }))

-- A socket that is opened, used and closed.
unfoldable pub with_netlink : {A : Type 0} → Result NlError Socket → M A → T A
with_netlink (err e) m h = fell (record e { shown = codes "netlink" }) h
with_netlink (ok s) m h = elim (m s) [
  | done a t ↦ came a (record h { used = h.used ++ (h.here, t) ∷ [] })
  | failed e t ↦ fell e (record h { used = h.used ++ (h.here, t) ∷ [] })
  | blocked ↦ hangs
  | stops f ↦ faults f
]

-- What the system decides when a namespace is entered: whether its path is there at each look, the
-- errno of each `open` and of `setns`, if it fails, and whether the guard's `setns` back works,
-- whose result the source drops.
pub record EnterTrial : Type 0 where
  pub looks : List Bool
  pub own : Option ℕ
  pub target : Option ℕ
  pub entered : Option ℕ
  pub returned : Bool

unfoldable pub refused_by : Text → Option ℕ → T (Unit {0})
refused_by text none h = came tt h
refused_by text (some errno) h = fell (record { shown = text; io = some errno }) h

abbrev pub back_in : Namespace → Text → Bool → Namespace
back_in old path returned = if returned then old else some path

-- The call with the guard, which ends when the call does.
unfoldable pub guarded : {A : Type 0} → Text → Bool → T A → T A
guarded path returned f h = elim (f (record h { here = some path })) [
  | came a g ↦ came a (record g { here = back_in h.here path returned })
  | fell e g ↦ fell e (record g { here = back_in h.here path returned })
  | hangs ↦ hangs
  | faults e ↦ faults e
]

-- From the two `open_ns` on.
unfoldable pub enter : {A : Type 0} → Text → EnterTrial → T A → T A
unfolding refused_by guarded
enter path t f = do
  refused_by (codes "open /proc/self/ns/net") t.own
  refused_by (codes "open " ++ path) t.target
  refused_by (codes "setns into target") t.entered
  guarded path t.returned f

-- The first argument counts the looks that are left; one past the end of the list finds nothing.
unfoldable pub appears : ℕ → List Bool → Bool
appears zero looks = false
appears (suc left) [] = false
appears (suc left) (there ∷ looks) = let later = appears left looks in if there then true else later

absent : {A : Type 0} → Text → T A
absent text h = fell (record { shown = text; io = none }) h

unfoldable pub in_netns : {A : Type 0} → Text → EnterTrial → T A → T A
unfolding absent enter appears
in_netns path t f =
    if appears 20 t.looks
    then enter path t f
    else absent (codes "netns " ++ (path ++ codes " did not appear after 2s"))

unfoldable pub in_netns_nowait : {A : Type 0} → Text → EnterTrial → T A → T A
unfolding absent enter appears
in_netns_nowait path t f =
    if appears 1 t.looks then enter path t f else absent (codes "netns " ++ (path ++ codes " gone"))

-- The first argument counts the attempts that are left.
unfoldable pub retry_from : {A : Type 0} → ℕ → ℕ → M (Option A) → M A
unfolding show_dec
retry_from zero max f =
    fail
      (record { shown = codes "not found after " ++ (show_dec max ++ codes " retries"); io = none })
retry_from (suc left) max f =
    Socket.◌>>=◌ f (λ found. elim found [ none ↦ retry_from left max f | some v ↦ pure v ])

unfoldable pub retry : {A : Type 0} → ℕ → M (Option A) → M A
unfolding retry_from
retry max f = retry_from max max f
