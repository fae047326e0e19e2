-- ===== src/Pool/Refines.antt =====
-- pool.rs does what `Pool.Service` promises, over any sequence of calls.
use containerd_cloudhypervis.Common.{
  ℕ, ◌+◌, ◌-◌, is_some, ◌^◌, ◌<◌, ◌≡◌, ◌≢◌, refl, sym, ap, ◌∙◌, subst, List, [], ◌∷◌, Option, none,
  some, Text, Result, ok, err, arith, length, All, lookup, remove, leb, if◌then◌else◌, Bool-cases,
  Result-cases, inl, inr, lookup-insert, lookup-remove_self, lookup-remove_ne, Distinct,
}
use mathlib.Core.Path.{fun_ext}
use containerd_cloudhypervis.Pool.State.{Pool, PoolVm, Error, next_cid_pub, u64}
use containerd_cloudhypervis.Pool.Preserve.{destroy_vm-Frame}
use containerd_cloudhypervis.Pool.Restore.{Trial, restore_one}
use containerd_cloudhypervis.Pool.Ops.{
  push_restored, push_ready, register_active, acquire, acquire_restored, release, replenish_one,
  Call, acquires, releases, replenishes, takes_cid, registers, step, run,
}
use containerd_cloudhypervis.Pool.Fresh.{Frame, restore_one-Frame, restore_one_vm}
use containerd_cloudhypervis.Pool.Invariant.{Inv, Named-ne}
use containerd_cloudhypervis.Pool.Registered.{Room, Named-foreign, step-Room}
use containerd_cloudhypervis.Pool.History.{step-Inv, step_next_cid}
use containerd_cloudhypervis.Pool.Service.{
  Service, update, Event, leases, refuses, takes_back, stocks, joins, rests, Serves, from_stock,
  made_new, refused, returned, stocked, joined, rested, Serving, stays, goes_on,
}

-- The view of a pool in which only VMs and their names are left.
unfoldable pub view : Pool → Service
view p = record { size = p.pool_size; spare = p.ready; leased = λ id. lookup id p.active }

answered : Result Error PoolVm → Event
answered (ok vm) = leases vm
answered (err e) = refuses

restocked : Result Error PoolVm → Event
restocked (ok vm) = stocks vm
restocked (err e) = rests

unfoldable pub event : Call → Pool → Event
unfolding answered restocked
event (acquires t) p = answered (acquire t p).0
event (releases id pid_file) p = takes_back id
event (replenishes t) p =
    if leb p.pool_size (length p.ready) then rests else restocked (restore_one t p).0
event takes_cid p = rests
event (registers vm) p = joins vm

unfoldable pub events : List Call → Pool → List Event
events [] p = []
events (c ∷ cs) p = event c p ∷ events cs (step c p)

update-insert :
    (vm : PoolVm) (p : Pool)
    → (λ id. lookup id (register_active vm p).active)
      ≡ update (λ id. lookup id p.active) vm.vm_id (some vm)
unfolding register_active update
update-insert vm p = fun_ext (λ id. lookup-insert vm.vm_id id vm p.active)

update-remove :
    (id : Text) (m : List (Text × PoolVm))
    → Distinct m
    → (λ k. lookup k (remove id m)) ≡ update (λ k. lookup k m) id none
unfolding update
update-remove id m d =
    fun_ext (λ k. ground (arith, lookup-remove_self id m d, lookup-remove_ne id k m))

Frame-view : (n : ℕ) (p q : Pool) → Frame p n q → view q ≡ view p
unfolding view
Frame-view n p q f = rw (f.config, f.ready, f.active) refl

view-register :
    (vm : PoolVm) (q : Pool)
    → view (register_active vm q)
      ≡ record (view q) { leased = update (view q).leased vm.vm_id (some vm) }
unfolding view register_active
view-register vm q = λ i. record (view q) { leased = update-insert vm q i }

-- A step to a view that is equal to the one promised.
moved : {s t u : Service} {e : Event} → Serves s e t → t ≡ u → Serves s e u
moved {s} {t} {u} {e} h q = subst (λ x. Serves s e x) q h

-- A VM that has just been restored has a name that no other VM has.
restored_free :
    (t : Trial) (p : Pool) (vm : PoolVm)
    → Inv p
    → (restore_one t p).0 ≡ ok vm
    → (lookup vm.vm_id p.active ≡ none) × All (λ (v : PoolVm). v.vm_id ≢ vm.vm_id) p.ready
restored_free t p vm v e =
    let (named, cid) = restore_one_vm t p vm e in
    (
      rw named (v.unused p.next_cid (omega arith)),
      rw named (Named-ne p.daemon_pid p.next_cid p.next_cid p.ready (omega arith) v.named v.below),
    )

acquire-Serves :
    (t : Trial) (p : Pool)
    → p.next_cid + 1 < 2 ^ 64
    → Inv p
    → Serves (view p) (event (acquires t) p) (view (acquire t p).1)
unfolding view event acquire acquire_restored
acquire-Serves t p h v = by_ready p.ready refl
  where
    by_ready :
        (vs : List PoolVm)
        → p.ready ≡ vs
        → Serves (view p) (event (acquires t) p) (view (acquire t p).1)
    by_ready (vm ∷ rest) r =
        let q : Pool = record p { ready = rest } in
        let e : acquire t p ≡ (ok vm, register_active vm q) = ground arith in
        let free : All (λ (w : PoolVm). lookup w.vm_id p.active ≡ none) (vm ∷ rest) =
          rw r at v.absent in
        rw e (moved (from_stock vm rest r free.0) (sym (view-register vm q)))
    by_ready [] r = elim (Result-cases (restore_one t p).0) [
      | inl (vm, made) ↦
          let q = (restore_one t p).1 in
          let e : acquire t p ≡ (ok vm, register_active vm q) = ground arith in
          let same = Frame-view (p.next_cid + 1) p q (restore_one-Frame t p h) in
          rw e (
            moved (made_new vm r (restored_free t p vm v made).0) (
              ap (λ (s : Service). record s { leased = update s.leased vm.vm_id (some vm) })
                (sym same)
              ∙ sym (view-register vm q)))
      | inr (x, failed) ↦
          let e : acquire t p ≡ (err x, (restore_one t p).1) = ground arith in
          rw e (moved (refused r) (sym (Frame-view (p.next_cid + 1) p _ (restore_one-Frame t p h))))
    ]

release-Serves :
    (id : Text) (pid_file : Option ℕ) (p : Pool)
    → Inv p
    → Serves (view p) (takes_back id) (view (release id pid_file p))
unfolding view release
release-Serves id pid_file p v =
    let removed = is_some (lookup id p.active) in
    let q : Pool = record p {
      active = remove id p.active;
      active_count = if removed then u64 (p.active_count + 2 ^ 64 - 1) else p.active_count;
    } in
    let given_up : view q ≡ record (view p) { leased = update (view p).leased id none } =
      (λ i. record (view p) { leased = update-remove id p.active v.distinct i }) in
    moved (returned id)
      (sym given_up ∙ sym (Frame-view p.next_cid q _ (destroy_vm-Frame id pid_file q)))

replenish-Serves :
    (t : Trial) (p : Pool)
    → p.next_cid + 1 < 2 ^ 64
    → Inv p
    → Serves (view p) (event (replenishes t) p) (view (replenish_one t p))
unfolding view event replenish_one push_restored push_ready
replenish-Serves t p h v =
    let q = (restore_one t p).1 in
    let same : view q ≡ view p = Frame-view (p.next_cid + 1) p q (restore_one-Frame t p h) in
    elim (Bool-cases (leb p.pool_size (length p.ready))) [
      | inl full ↦ rw full rested
      | inr short ↦ elim (Result-cases (restore_one t p).0) [
        | inl (vm, made) ↦
            let e : restore_one t p ≡ (ok vm, q) = ground arith in
            let free = restored_free t p vm v made in
            let stock : Serves (view p) (stocks vm) (record (view p) { spare = vm ∷ p.ready }) =
              stocked vm (ground arith) free.0 free.1 in
            rw (short, e)
              (moved stock (ap (λ (s : Service). record s { spare = vm ∷ s.spare }) (sym same)))
        | inr (x, failed) ↦
            let e : restore_one t p ≡ (err x, q) = ground arith in
            rw (short, e) (moved rested (sym same))
      ]
    ]

joined_at :
    (vm : PoolVm) (p : Pool)
    → lookup vm.vm_id p.active ≡ none
    → All (λ (v : PoolVm). v.vm_id ≢ vm.vm_id) p.ready
    → Serves
        (view p)
        (joins vm)
        (record (view p) { leased = update (view p).leased vm.vm_id (some vm) })
unfolding view
joined_at vm p free apart = joined vm free apart

step-Serves :
    (c : Call) (cs : List Call) (p : Pool)
    → p.next_cid + 1 < 2 ^ 64
    → Room (c ∷ cs) p
    → Inv p
    → Serves (view p) (event c p) (view (step c p))
unfolding step event
step-Serves (acquires t) cs p h r v = acquire-Serves t p h v
step-Serves (releases id pid_file) cs p h r v = release-Serves id pid_file p v
step-Serves (replenishes t) cs p h r v = replenish-Serves t p h v
step-Serves takes_cid cs p h r v = unfold view next_cid_pub in rested
step-Serves (registers vm) cs p h r v =
    let apart = Named-foreign p.daemon_pid vm p.ready r.foreign.0 v.named in
    moved (joined_at vm p r.absent.0 apart) (sym (view-register vm p))

-- Whatever acquires, releases, replenishments, CID allocations and registrations of VMs reach the
-- pool one after the other, with whatever outcomes, its callers see a run of `Service`: from a pool
-- that satisfies the invariant, as long as the 64-bit CID counter does not run out, and if the VMs
-- that are registered from outside have names of their own, which are not active at first, which the
-- pool gives to none of its VMs, and of which no two are equal.
pub run-Serving :
    (cs : List Call) (p : Pool)
    → p.next_cid + length cs < 2 ^ 64
    → Room cs p
    → Inv p
    → Serving (view p) (events cs p) (view (run cs p))
unfolding run events
run-Serving [] p h r v = stays
run-Serving (c ∷ cs) p h r v = goes_on (step-Serves c cs p (omega arith) r v) (
    run-Serving cs (step c p) (omega (arith, step_next_cid c p (omega arith)))
      (step-Room c cs p (omega arith) v r) (step-Inv c cs p (omega arith) r v))
