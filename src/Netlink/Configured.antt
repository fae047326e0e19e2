-- ===== src/Netlink/Configured.antt =====
-- netlink.rs `configure_interface`: the messages that it sends, and the errors that it is meant to
-- tolerate.
use containerd_cloudhypervis.Common.{
  ℕ, ◌≡◌, refl, Bool, true, false, Option, none, some, List, [], ◌∷◌, Text, Result, ok, err,
  replicate, leb, ◌==◌, if◌then◌else◌,
}
use mathlib.Core.Path.{fun_ext}
use containerd_cloudhypervis.Netlink.Bytes.{R, u16_at, i32_at}
use containerd_cloudhypervis.Netlink.Attributes.{Ipv4}
use containerd_cloudhypervis.Netlink.Socket.{
  Socket, Outcome, done, failed, blocked, stops, M, ◌>>=◌, ◌>>◌, pure, fail, next_seq, lift, send,
  recv_buf, error_in, request,
}
use containerd_cloudhypervis.Netlink.Requests.{request_error}
use containerd_cloudhypervis.Netlink.Links.{add_address, set_link_up, add_default_route}
use containerd_cloudhypervis.Netlink.Configure.{
  says_exists, tolerated, resolve, route_via, configure_interface,
}

-- No error that the outcome holds is taken for "already exists".
abbrev pub Unknown : {A : Type 0} → Outcome A → Type 0
Unknown (failed e t) = says_exists e ≡ false
Unknown other = Unit

abbrev Strict : {A : Type 0} → M A → Type 0
Strict m = (s : Socket) → Unknown (m s)

Strict-bind :
    {A B : Type 0} (m : M A) (f : A → M B) → Strict m → ((a : A) → Strict (f a)) → Strict (m >>= f)
Strict-bind {A} {B} m f h k s = after (m s) (h s)
  where
    after :
        (o : Outcome A)
        → Unknown o
        → Unknown (elim o as (λ x. Outcome B) [
          | done a t ↦ f a t
          | failed e t ↦ failed e t
          | blocked ↦ blocked
          | stops f' ↦ stops f'
        ])
    after (done a t) u = k a t
    after (failed e t) u = u
    after blocked u = tt
    after (stops f') u = tt

Strict-lift : {A : Type 0} (r : R A) → Strict (lift r)
Strict-lift (ok a) s = tt
Strict-lift (err f) s = tt

Strict-next_seq : Strict next_seq
unfolding next_seq
Strict-next_seq s = tt

Strict-send : (m : Text) → Strict (send m)
unfolding send says_exists
Strict-send m s = sending s.refusals
  where
    sending : (l : List (Option ℕ)) → Unknown (send m (record s { refusals = l }))
    sending [] = tt
    sending (none ∷ l) = tt
    sending (some e ∷ l) = refl

Strict-recv_buf : (buf : Text) → Strict (recv_buf buf)
unfolding recv_buf says_exists
Strict-recv_buf buf s = receiving s.inbox
  where
    receiving : (l : List (Result ℕ Text)) → Unknown (recv_buf buf (record s { inbox = l }))
    receiving [] = tt
    receiving (ok d ∷ l) = tt
    receiving (err e ∷ l) = refl

Strict-if : {A : Type 0} (b : Bool) (m k : M A) → Strict m → Strict k → Strict (if b then m else k)
Strict-if true m k h h' = h
Strict-if false m k h h' = h'

Strict-error_in : (r : Text) (n : ℕ) → Strict (error_in r n)
unfolding error_in
Strict-error_in r n =
    let nothing : M ℕ = pure 0 in
    let code : ℕ → M ℕ = (λ ty. if ty == 2 then lift (i32_at r 16) else nothing) in
    Strict-if (leb 20 n) (lift (u16_at r 4) >>= code) nothing
      (Strict-bind (lift (u16_at r 4)) code (Strict-lift (u16_at r 4)) (λ ty.
        Strict-if (ty == 2) (lift (i32_at r 16)) nothing (Strict-lift (i32_at r 16)) (λ s. tt)))
      (λ s. tt)

Strict-request_error : (e : ℕ) → Strict (fail {A = Unit {0}} (request_error e))
unfolding says_exists
Strict-request_error e s = refl

Strict-request : (m : Text) → Strict (request m)
unfolding request
Strict-request m =
    let buf : Text = replicate 4096 0 in
    let reported : ℕ → M (Unit {0}) = (λ e. if e == 0 then pure tt else fail (request_error e)) in
    Strict-bind (send m) _ (Strict-send m) (λ _.
      Strict-bind (recv_buf buf) (λ (r, n). error_in r n >>= reported) (Strict-recv_buf buf)
        (λ (r, n). Strict-bind (error_in r n) reported (Strict-error_in r n) (λ e.
          Strict-if (e == 0) (pure tt) (fail (request_error e)) (λ s. tt)
            (Strict-request_error e))))

-- The address and the route: no error of theirs tells that something exists already.
Strict-add_address : (idx : ℕ) (ip : Ipv4) (prefix_len : ℕ) → Strict (add_address idx ip prefix_len)
unfolding add_address
Strict-add_address idx ip prefix_len =
    search (Strict-bind, Strict-next_seq, Strict-request) depth 30

Strict-add_default_route : (gw : Ipv4) (idx : ℕ) → Strict (add_default_route gw idx)
unfolding add_default_route
Strict-add_default_route gw idx = search (Strict-bind, Strict-next_seq, Strict-request) depth 30

tolerated-Strict : (m : M (Unit {0})) → Strict m → (s : Socket) → tolerated m s ≡ m s
unfolding tolerated
tolerated-Strict m h s = after (m s) (h s)
  where
    after : (o : Outcome (Unit {0})) → Unknown o → tolerated (λ _. o) s ≡ o
    after (done a t) u = refl
    after (failed e t) u = rw u refl
    after blocked u = refl
    after (stops f) u = refl

-- `configure_interface` with no error tolerated.
module _ (io_text : ℕ → Text) where
  unfoldable pub strict_route : Option Ipv4 → ℕ → M (Unit {0})
  strict_route none idx = pure tt
  strict_route (some gw) idx = add_default_route gw idx

  unfoldable pub strict_configure : Text → Ipv4 → ℕ → Option Ipv4 → Option Text → M (Unit {0})
  strict_configure device ip prefix_len gateway mac = do
    (resolved_name, idx) ← resolve io_text device mac
    add_address idx ip prefix_len
    set_link_up idx
    strict_route gateway idx

  route_strict :
      (gateway : Option Ipv4) (idx : ℕ) → route_via gateway idx ≡ strict_route gateway idx
  unfolding route_via strict_route
  route_strict none idx = refl
  route_strict (some gw) idx =
      fun_ext (tolerated-Strict (add_default_route gw idx) (Strict-add_default_route gw idx))

  -- An interface is configured as if no error were tolerated: an address or a route that exists
  -- already makes the call fail, since the text of the error that `request` gives is always
  -- "netlink request", "nl send" or "nl recv".
  pub configure_interface-strict :
      (device : Text) (ip : Ipv4) (prefix_len : ℕ) (gateway : Option Ipv4) (mac : Option Text)
      → configure_interface io_text device ip prefix_len gateway mac
        ≡ strict_configure device ip prefix_len gateway mac
  unfolding configure_interface strict_configure
  configure_interface-strict device ip prefix_len gateway mac =
      let step : (idx : ℕ)
          → tolerated (add_address idx ip prefix_len) ≡ add_address idx ip prefix_len =
        (λ idx. fun_ext (tolerated-Strict _ (Strict-add_address idx ip prefix_len))) in
      (λ i.
        resolve io_text device mac
        >>= (λ (resolved_name, idx). step idx i >> (set_link_up idx >> route_strict gateway idx i)))
