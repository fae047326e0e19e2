-- ===== src/Shadow/Consistency.antt =====
-- shadow.rs `trigger_shadow`: what holds of the table of running shadows if no other task comes
-- between the two halves of a trigger.
use containerd_cloudhypervis.Common.{
  ◌<◌, ◌≡◌, inl, inr, Bool, true, false, List, [], ◌∷◌, Text, lookup, is_some, if◌then◌else◌, arith,
  Distinct, lookup-insert, lookup-remove_ne, lookup-remove_self, insert-Distinct, remove-Distinct,
  Text-discrete, Bool-cases, leb,
}
use containerd_cloudhypervis.Shadow.Trigger.{
  Tasks, drop_one, occurs, finish_shadow, trigger_shadow, occurs-drop_one_ne, occurs-drop_one_self,
}

-- Every running shadow is listed under its key, one to a key.
pub record IsConsistent (s : Tasks) : Type 0 where
  pub distinct : Distinct s.active_shadows
  pub settled : s.pending ≡ []
  pub matched :
      (key : Text) → occurs key s.running ≡ (if is_some (lookup key s.active_shadows) then 1 else 0)

trigger_shadow-IsConsistent :
    (found : Bool) (key : Text) (s : Tasks)
    → IsConsistent s
    → IsConsistent (trigger_shadow found key s)
unfolding trigger_shadow
trigger_shadow-IsConsistent true key s c = c
trigger_shadow-IsConsistent false key s c =
    elim (Bool-cases (is_some (lookup key s.active_shadows))) [
      | inl old ↦ rw (old, trigger_shadow) c
      | inr new ↦
          rw (new, trigger_shadow)
            (record {
              distinct = insert-Distinct key tt s.active_shadows c.distinct;
              settled = unfold drop_one in ground (arith, c.settled);
              matched = λ j.
                  unfold occurs in
                  ground (
                    arith,
                    lookup-insert key j tt s.active_shadows,
                    c.matched j,
                    Text-discrete key j,
                  );
            })
    ]

finish_shadow-IsConsistent :
    (key : Text) (s : Tasks)
    → 0 < occurs key s.running
    → IsConsistent s
    → IsConsistent (finish_shadow key s)
unfolding finish_shadow
finish_shadow-IsConsistent key s h c = record {
  distinct = remove-Distinct key s.active_shadows c.distinct;
  settled = c.settled;
  matched = λ j. elim (Text-discrete key j) [
    | yes same ↦ rw (← same) (
        ground (
          arith,
          lookup-remove_self key s.active_shadows c.distinct,
          occurs-drop_one_self key s.running,
          c.matched key,
        ))
    | no other ↦ ground (
      arith,
      lookup-remove_ne key j s.active_shadows other,
      occurs-drop_one_ne key j s.running other,
      c.matched j,
    )
  ];
}

-- What a caller can do if nothing comes between the two halves of a trigger.
pub data Event : Type 0 where
  triggers : Bool → Text → Event
  ends : Text → Event

unfoldable pub step : Event → Tasks → Tasks
unfolding trigger_shadow finish_shadow
step (triggers found key) s = trigger_shadow found key s
step (ends key) s = if leb 1 (occurs key s.running) then finish_shadow key s else s

unfoldable pub run : List Event → Tasks → Tasks
run [] s = s
run (e ∷ es) s = run es (step e s)

step-IsConsistent : (e : Event) (s : Tasks) → IsConsistent s → IsConsistent (step e s)
unfolding step
step-IsConsistent (triggers found key) s c = trigger_shadow-IsConsistent found key s c
step-IsConsistent (ends key) s c = elim (Bool-cases (leb 1 (occurs key s.running))) [
  | inl t ↦ rw (t, step) (finish_shadow-IsConsistent key s (ground arith) c)
  | inr f ↦ rw (f, step) c
]

-- With triggers that are not interleaved, every history of triggers and ends of shadows keeps
-- this, if it holds at the start: a key is listed exactly if a shadow runs for it, and never two
-- run for one key.
pub run-IsConsistent : (es : List Event) (s : Tasks) → IsConsistent s → IsConsistent (run es s)
unfolding run
run-IsConsistent [] s c = c
run-IsConsistent (e ∷ es) s c = run-IsConsistent es (step e s) (step-IsConsistent e s c)
