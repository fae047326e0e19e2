-- ===== src/Netlink/Entered.antt =====
-- netns.rs: how calls in a namespace and on a socket end, by how their parts end.
use containerd_cloudhypervis.Common.{◌≡◌, refl, Bool, true, none, some, [], ◌∷◌, ◌++◌, Text, ok}
use containerd_cloudhypervis.Netlink.Socket.{NlError, Socket, M, done, failed}
use containerd_cloudhypervis.Netlink.Configure.{caught}
use containerd_cloudhypervis.Netlink.Namespaces.{
  T, Host, came, fell, EnterTrial, back_in, context, with_netlink, refused_by, guarded, enter,
  in_netns, appears,
}

-- The way into the namespace is free.
pub record Enters (t : EnterTrial) : Type 0 where
  pub there : appears 20 t.looks ≡ true
  pub own : t.own ≡ none
  pub target : t.target ≡ none
  pub entered : t.entered ≡ none

pub context_done :
    {A : Type 0} (text : Text) (m : M A) (s : Socket) {a : A} {t : Socket}
    → m s ≡ done a t
    → context text m s ≡ done a t
unfolding context caught
context_done text m s e = rw (e, caught) refl

pub guarded_fell :
    {A : Type 0} (path : Text) (returned : Bool) (f : T A) (h : Host) {e : NlError} {g : Host}
    → f (record h { here = some path }) ≡ fell e g
    → guarded path returned f h ≡ fell e (record g { here = back_in h.here path returned })
unfolding guarded
guarded_fell path returned f h e = rw (e, guarded) refl

pub in_netns_fell :
    {A : Type 0} (path : Text) (t : EnterTrial) (f : T A) (h : Host) {e : NlError} {g : Host}
    → Enters t
    → f (record h { here = some path }) ≡ fell e g
    → in_netns path t f h ≡ fell e (record g { here = back_in h.here path t.returned })
unfolding in_netns enter refused_by
in_netns_fell path t f h free e =
    rw (free.there, free.own, free.target, free.entered) (guarded_fell path t.returned f h e)

pub with_netlink_failed :
    {A : Type 0} (m : M A) (s : Socket) (h : Host) {e : NlError} {t : Socket}
    → m s ≡ failed e t
    → with_netlink (ok s) m h ≡ fell e (record h { used = h.used ++ (h.here, t) ∷ [] })
unfolding with_netlink
with_netlink_failed m s h e = rw (e, with_netlink) refl

pub with_netlink_done :
    {A : Type 0} (m : M A) (s : Socket) (h : Host) {a : A} {t : Socket}
    → m s ≡ done a t
    → with_netlink (ok s) m h ≡ came a (record h { used = h.used ++ (h.here, t) ∷ [] })
unfolding with_netlink
with_netlink_done m s h e = rw (e, with_netlink) refl
