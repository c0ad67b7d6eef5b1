-- ===== src/Measurement/Roundtrip.antt =====
-- An event set that is created and destroyed again leaves no trace (src/c/measurement.c).
use java_ubench_agent.Prelude.{
  ℕ, ℤ, pos, minus_one, Bool, ◌≡◌, ◌≢◌, sym, ◌∙◌, inl, inr, List, subst, ap, ℕ_discrete,
}
use java_ubench_agent.Strutil.{Text}
use java_ubench_agent.Measurement.State.{World, returned, find_valid}
use java_ubench_agent.Measurement.Create.{create_event_set, destroy_event_set}
use java_ubench_agent.Measurement.Stages.{Env}
use java_ubench_agent.Measurement.Create.Outcomes.{Success, CreatesFor, create-CreatesFor}
use java_ubench_agent.Measurement.Destroy.{Destroyed, destroy-Destroyed}

-- The same valid event sets and the same pending exception.
pub record SameEventsets (w w' : World) : Type 0 where
  pub eventsets : (k : ℕ) → find_valid w' (pos k) ≡ find_valid w (pos k)
  pub quiet : w'.pending ≡ w.pending

Success-destroy :
    (class_found : Bool) {env : Env} {size : ℕ} {names : List Text} {w w' : World} {id : ℤ}
    → Success env size names w id w'
    → (w'' : World) × (destroy_event_set class_found id w' ≡ returned tt w'') × SameEventsets w w''
Success-destroy class_found {w = w} {w' = w'} s =
    subst
      (λ i.
        (w'' : World) × (destroy_event_set class_found i w' ≡ returned tt w'')
        × SameEventsets w w'')
      (sym s.is_id) (w'', does, record { eventsets = same; quiet = d.quiet ∙ s.quiet })
  where
    destroyed :
        (w'' : World) × (destroy_event_set class_found (pos s.index) w' ≡ returned tt w'')
        × Destroyed w' s.index w''
    destroyed = destroy-Destroyed class_found s.index w' s.valid (record {
      infos = s.built.infos;
      cells = _;
      events = s.built.events;
      snapshots = s.built.cells;
    })

    w'' : World
    w'' = destroyed.0

    does : destroy_event_set class_found (pos s.index) w' ≡ returned tt w''
    does = destroyed.1

    d : Destroyed w' s.index w''
    d = destroyed.2

    same : (k : ℕ) → find_valid w'' (pos k) ≡ find_valid w (pos k)
    same k = elim (ℕ_discrete k s.index) [
      | yes here ↦
          ap (λ i. find_valid w'' (pos i)) here
          ∙ d.gone
          ∙ sym s.fresh
          ∙ ap (λ i. find_valid w (pos i)) (sym here)
      | no other ↦ d.others k other ∙ s.others k other
    ]

-- Where createEventSet returns an identifier that is not -1, destroyEventSet of this identifier
-- returns at once, and then exactly the event sets of before the creation are valid, each as it
-- was, with the same exception pending.
pub destroy-create :
    (class_found : Bool) (env : Env) (jmeasurements : ℤ) (names : List Text) (options : List ℤ)
    (w : World) {id : ℤ} {w' : World}
    → create_event_set env jmeasurements names options w ≡ returned id w'
    → id ≢ minus_one
    → (w'' : World) × (destroy_event_set class_found id w' ≡ returned tt w'') × SameEventsets w w''
destroy-create class_found env jmeasurements names options w {id} {w'} e made =
    elim (subst (CreatesFor env jmeasurements names w) e
      (create-CreatesFor env jmeasurements names options w)) [
        | inl (size, asked, named, s) ↦ Success-destroy class_found s
        | inr f ↦ absurd (made f.is_id)
      ]
