-- ===== src/Daemon/Moves.antt =====
-- netns.rs: where the TAP is made, and an answer that `activate_tap` does not read.
use containerd_cloudhypervis.Common.{
  ℕ, ◌≡◌, refl, ◌∙◌, Bool, Option, none, some, List, [], ◌∷◌, ◌++◌, Text, codes, Result, ok, err,
  if◌then◌else◌, Bool-cases, inl, inr, subst,
}
use containerd_cloudhypervis.Netlink.Socket.{
  NlError, Socket, Outcome, done, failed, blocked, stops, M,
}
use containerd_cloudhypervis.Netlink.Links.{del_link}
use containerd_cloudhypervis.Netlink.Queries.{best_effort}
use containerd_cloudhypervis.Netlink.Namespaces.{
  Namespace, T, Host, Ran, came, fell, hangs, faults, EnterTrial, ◌>>◌, return, back_in,
  with_netlink, guarded, refused_by, enter, in_netns, appears,
}
use containerd_cloudhypervis.Daemon.Network.{PodNetInfo}
use containerd_cloudhypervis.Daemon.Tap.{TapTrial, discover, prepare_tap, made}

-- What holds where a call comes to its end.
abbrev Came : {A : Type 0} → (A → Host → Type 0) → Ran A → Type 0
Came P (came a h) = P a h
Came P (fell e h) = Unit
Came P hangs = Unit
Came P (faults f) = Unit

bind-Came :
    {A B : Type 0} (P : B → Host → Type 0) (Q : A → Host → Type 0) (f : A → T B) (r : Ran A)
    → Came Q r
    → ((a : A) (g : Host) → Q a g → Came P (f a g))
    → Came P
        (elim r [ came a g ↦ f a g | fell e g ↦ fell e g | hangs ↦ hangs | faults e ↦ faults e ])
bind-Came P Q f (came a g) q k = k a g q
bind-Came P Q f (fell e g) q k = tt
bind-Came P Q f hangs q k = tt
bind-Came P Q f (faults e) q k = tt

Came-mono :
    {A : Type 0} (P Q : A → Host → Type 0) (r : Ran A)
    → ((a : A) (g : Host) → P a g → Q a g)
    → Came P r
    → Came Q r
Came-mono P Q (came a g) k p = k a g p
Came-mono P Q (fell e g) k p = tt
Came-mono P Q hangs k p = tt
Came-mono P Q (faults f) k p = tt

-- A call on a socket neither moves the thread nor makes a TAP.
abbrev Stays : {A : Type 0} → Host → A → Host → Type 0
Stays h a g = (g.here ≡ h.here) × (g.taps ≡ h.taps)

with_netlink-Stays :
    {A : Type 0} (o : Result NlError Socket) (m : M A) (h : Host)
    → Came (Stays h) (with_netlink o m h)
unfolding with_netlink
with_netlink-Stays (err e) m h = tt
with_netlink-Stays {A = A} (ok s) m h = ended (m s)
  where
    ended :
        (r : Outcome A)
        → Came (Stays h) (elim r [
          | done a t ↦ came a (record h { used = h.used ++ (h.here, t) ∷ [] })
          | failed e t ↦ fell e (record h { used = h.used ++ (h.here, t) ∷ [] })
          | blocked ↦ hangs
          | stops f ↦ faults f
        ])
    ended (done a t) = (refl, refl)
    ended (failed e t) = tt
    ended blocked = tt
    ended (stops f) = tt

guarded-Came :
    {A : Type 0} (P : A → Host → Type 0) (path : Text) (returned : Bool) (f : T A) (h : Host)
    → Came
        (λ a g. P a (record g { here = back_in h.here path returned }))
        (f (record h { here = some path }))
    → Came P (guarded path returned f h)
unfolding guarded
guarded-Came {A = A} P path returned f h = ended (f (record h { here = some path }))
  where
    ended :
        (r : Ran A)
        → Came (λ a g. P a (record g { here = back_in h.here path returned })) r
        → Came P (elim r [
          | came a g ↦ came a (record g { here = back_in h.here path returned })
          | fell e g ↦ fell e (record g { here = back_in h.here path returned })
          | hangs ↦ hangs
          | faults e ↦ faults e
        ])
    ended (came a g) p = p
    ended (fell e g) p = tt
    ended hangs p = tt
    ended (faults e) p = tt

refused_by-same :
    (text : Text) (o : Option ℕ) (h : Host) → Came (λ _ g. h ≡ g) (refused_by text o h)
unfolding refused_by
refused_by-same text none h = refl
refused_by-same text (some errno) h = tt

-- A step that may fail and changes nothing, before a call.
refused_by-Came :
    {A : Type 0} (P : A → Host → Type 0) (text : Text) (o : Option ℕ) (f : T A) (h : Host)
    → Came P (f h)
    → Came P ((refused_by text o >> f) h)
refused_by-Came P text o f h p =
    bind-Came P (λ _ g. h ≡ g) (λ _. f) (refused_by text o h) (refused_by-same text o h)
      (λ _ g e. subst (λ k. Came P (f k)) e p)

in_netns-Came :
    {A : Type 0} (P : A → Host → Type 0) (path : Text) (t : EnterTrial) (f : T A) (h : Host)
    → Came
        (λ a g. P a (record g { here = back_in h.here path t.returned }))
        (f (record h { here = some path }))
    → Came P (in_netns path t f h)
unfolding in_netns enter
in_netns-Came P path t f h p = elim (Bool-cases (appears 20 t.looks)) [
  | inr gone ↦ rw gone tt
  | inl there ↦ rw there (
      refused_by-Came P (codes "open /proc/self/ns/net") t.own
        (refused_by (codes "open " ++ path) t.target
          >> (refused_by (codes "setns into target") t.entered >> guarded path t.returned f))
        h
        (refused_by-Came P (codes "open " ++ path) t.target
          (refused_by (codes "setns into target") t.entered >> guarded path t.returned f) h
          (refused_by-Came P (codes "setns into target") t.entered (guarded path t.returned f) h
            (guarded-Came P path t.returned f h p))))
]

made-Came :
    {A : Type 0} (tap : Text) (o : Option NlError) (a : A) (h : Host)
    → Came
        (λ b g. (g.here ≡ h.here) × (g.taps ≡ h.taps ++ (h.here, tap) ∷ []))
        ((made tap o >> return a) h)
unfolding made
made-Came tap none a h = (refl, refl)
made-Came tap (some e) a h = tt

-- One TAP, made in a namespace where the thread then is.
abbrev Made : Namespace → Text → List (Namespace × Text) → PodNetInfo → Host → Type 0
Made place tap old info g = (g.here ≡ place) × (g.taps ≡ old ++ (place, tap) ∷ [])

module _ (io_text : ℕ → Text) (netns_path tap : Text) (t : TapTrial) (h : Host) where
  prepare_tap-Came :
      Came
        (Made (back_in h.here netns_path t.enter.returned) tap h.taps)
        (prepare_tap io_text netns_path tap t h)
  unfolding prepare_tap
  prepare_tap-Came =
      let place = back_in h.here netns_path t.enter.returned in
      let probe = with_netlink t.pod (discover io_text) in
      let stays =
        with_netlink-Stays t.pod (discover io_text) (record h { here = some netns_path }) in
      let Found : PodNetInfo → Host → Type 0 = λ info g. (g.here ≡ place) × (g.taps ≡ h.taps) in
      let moved =
        Came-mono _ (λ (info : PodNetInfo) (g : Host). (place ≡ place) × (g.taps ≡ h.taps))
          (probe (record h { here = some netns_path })) (λ a g s. (refl, s.1)) stays in
      let removed = with_netlink t.host (best_effort (del_link io_text tap)) in
      bind-Came (Made place tap h.taps) Found _ (in_netns netns_path t.enter probe h)
        (in_netns-Came Found netns_path t.enter probe h moved)
        (λ info g found.
          bind-Came (Made place tap h.taps) (λ _. Stays g tt) _ (removed g)
            (with_netlink-Stays t.host (best_effort (del_link io_text tap)) g)
            (λ _ k same.
              Came-mono _ (Made place tap h.taps) ((made tap t.created >> return info) k)
                (λ a l both.
                  let here = same.0 ∙ found.0 in
                  let taps = same.1 ∙ found.1 in
                  (both.0 ∙ here, both.1 ∙ (λ i. taps i ++ (here i, tap) ∷ [])))
                (made-Came tap t.created info k)))

  -- When `prepare_tap` succeeds, it has made one TAP, with the given name, and it has made it in the
  -- namespace that the thread is left in: that in which it was called, if the way back from the
  -- pod's namespace works, and otherwise the pod's.
  pub prepare_tap-made :
      (info : PodNetInfo) (g : Host)
      → prepare_tap io_text netns_path tap t h ≡ came info g
      → let place = if t.enter.returned then h.here else some netns_path in
        (g.here ≡ place) × (g.taps ≡ h.taps ++ (place, tap) ∷ [])
  prepare_tap-made info g e =
      subst (Came (Made (back_in h.here netns_path t.enter.returned) tap h.taps)) e prepare_tap-Came
