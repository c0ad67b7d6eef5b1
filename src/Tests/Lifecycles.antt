-- ===== src/Tests/Lifecycles.antt =====
-- Creation, attachment and destruction of event sets (src/c/measurement.c) on test data.
use mathlib.Core.Logic.Or
use mathlib.Core.HLevel.{⊥_prop}
use mathlib.Core.List.{Mem, Nodup-cons, Nodup-nil, mem-cons, not-mem-nil}
use java_ubench_agent.Prelude.{
  false, ℕ, ap, Option, none, some, ℤ, subst, ◌↔◌, arith, pos, true, ◌≡◌, ◌≢◌, refl, [], ◌∷◌,
}
use java_ubench_agent.Strutil.{tolower}
use java_ubench_agent.Threads.Map.{ThreadMap}
use java_ubench_agent.Measurement.State.{
  Eventset, World, Outcome, returned, exited, fault, find_valid,
}
use java_ubench_agent.Measurement.Create.{create_event_set, destroy_event_set}
use java_ubench_agent.Measurement.Roundtrip.{SameEventsets, destroy-create}
use java_ubench_agent.Measurement.Attach.{
  create_attached_event_set_with_java_thread, create_attached_event_set_with_native_thread,
}
use java_ubench_agent.Measurement.Attach.Outcomes.{
  AttachesFor, attach_java-AttachesFor, attach_native-AttachesFor,
}
use java_ubench_agent.Measurement.Lifecycle.{Reachable, loaded, creates, starts, Reachable-IsWhole}
use java_ubench_agent.Measurement.Blocks.{IsWhole}
use java_ubench_agent.Measurement.Defined.{Reachable-defined}
use java_ubench_agent.Measurement.Arrays.{all_made, IsTable}
use java_ubench_agent.Measurement.Widths.{Reachable-IsTable}
use java_ubench_agent.Measurement.Overflow.{IsFull, Reachable-overflow, Reachable-stops}
use java_ubench_agent.Measurement.Recording.{start, stop, sample, reset}
use java_ubench_agent.Measurement.Results.{Objects, Results, get_results, get_raw_results}
use java_ubench_agent.Tests.Samples.{
  sample_env, sample_names, empty_world, created_world, name_code, reading,
}

abbrev known_threads : ThreadMap
known_threads = record {
  entries = record { native_id = pos 100; java_id = pos 1 } ∷ [];
  capacity = 1;
}

-- The world after a call that returns.
abbrev left_by : Outcome (Unit {0}) → World
left_by (returned _ w) = w
left_by exited = empty_world
left_by fault = empty_world

attach_java-AttachesFor_example : AttachesFor sample_env (pos 2) sample_names [] empty_world (
    create_attached_event_set_with_java_thread sample_env known_threads
      (pos 2)
      (pos 2)
      sample_names
      []
      empty_world)
attach_java-AttachesFor_example =
    attach_java-AttachesFor sample_env known_threads (pos 2) (pos 2) sample_names [] empty_world

attach_native-AttachesFor_example : AttachesFor sample_env (pos 2) sample_names [] empty_world (
    create_attached_event_set_with_native_thread sample_env
      (pos 100)
      (pos 2)
      sample_names
      []
      empty_world)
attach_native-AttachesFor_example =
    attach_native-AttachesFor sample_env (pos 100) (pos 2) sample_names [] empty_world

created_world-Reachable : Reachable created_world
unfolding created_world create_event_set name_code tolower
created_world-Reachable = creates sample_env (pos 2) sample_names [] {id = pos 0} loaded refl

Reachable-IsWhole_example : IsWhole created_world
Reachable-IsWhole_example = Reachable-IsWhole created_world-Reachable

-- A JVM that does not make the report itself.
abbrev half_made : Objects
half_made = record all_made { results_made = false }

Reachable-defined_example :
    (start true reading (pos 0 ∷ pos 7 ∷ []) created_world ≢ fault)
    × (sample true reading (pos 3) (pos 0 ∷ pos 7 ∷ []) created_world ≢ fault)
    × (reset true (pos 0 ∷ pos 7 ∷ []) created_world ≢ fault)
    × (get_results true half_made (pos 0) created_world ≢ fault)
    × (get_raw_results true half_made (pos 0) created_world ≢ fault)
    × (destroy_event_set true (pos 0) created_world ≢ fault)
Reachable-defined_example =
    Reachable-defined true half_made reading (pos 3) (pos 0) (pos 0 ∷ pos 7 ∷ [])
      created_world-Reachable (record { names = refl; strings = λ name. refl })

Reachable-IsTable_example :
    ((res : Results) × (get_results true all_made (pos 0) created_world
        ≡ returned (some res) created_world)
      × IsTable 3 res)
    × ((res : Results) × (get_raw_results true all_made (pos 0) created_world
          ≡ returned (some res) created_world)
        × IsTable 4 res)
unfolding created_world create_event_set find_valid name_code tolower
Reachable-IsTable_example = Reachable-IsTable true (pos 0) created_world-Reachable refl

-- Four rounds of start fill the event set.
abbrev started_world : World
unfolding start created_world create_event_set name_code
started_world = left_by (start true reading (pos 0 ∷ pos 0 ∷ pos 0 ∷ pos 0 ∷ []) created_world)

started_world-Reachable : Reachable started_world
unfolding start created_world create_event_set name_code tolower
started_world-Reachable =
    starts true reading (pos 0 ∷ pos 0 ∷ pos 0 ∷ pos 0 ∷ []) created_world-Reachable refl

Reachable-overflow_example :
    (stop true reading (pos 0 ∷ []) started_world ≡ fault) ↔ IsFull started_world (pos 0)
Reachable-overflow_example = Reachable-overflow true reading (pos 0) started_world-Reachable

-- Its next stop writes past the end.
started_world-overflow : stop true reading (pos 0 ∷ []) started_world ≡ fault
unfolding start created_world create_event_set name_code tolower
started_world-overflow =
    (Reachable-overflow true reading (pos 0) started_world-Reachable).1 (_, refl, refl)

abbrev filling : Option Eventset → ℕ × ℕ
filling none = (0, 0)
filling (some e) = (e.config.data_size, e.config.data_index)

created_world-room : (id : ℤ) → Mem id (pos 0 ∷ pos 7 ∷ []) → ¬ IsFull created_world id
unfolding created_world create_event_set name_code tolower find_valid
created_world-room id m full =
    Or.elim ⊥_prop (mem-cons.0 m) (λ same. first (subst (IsFull created_world) same full))
      (λ n.
        Or.elim ⊥_prop (mem-cons.0 n) (λ same. second (subst (IsFull created_world) same full))
          (λ none. not-mem-nil none))
  where
    first : ¬ IsFull created_world (pos 0)
    first (e, there, at_end) =
        let recorded : ◌≡◌ {A = ℕ × ℕ} (4, 0) (e.config.data_size, e.config.data_index) =
          ap filling there in
        absurd (ground (arith, recorded, at_end))

    second : ¬ IsFull created_world (pos 7)
    second (e, there, at_end) = absurd (ground (arith, there))

Reachable-stops_example : stop true reading (pos 0 ∷ pos 7 ∷ []) created_world ≢ fault
Reachable-stops_example =
    Reachable-stops true reading (pos 0 ∷ pos 7 ∷ []) created_world-Reachable
      (Nodup-cons.1 (
        (λ m. Or.elim ⊥_prop (mem-cons.0 m) (λ e. ground (arith, e)) (λ n. not-mem-nil n)),
        Nodup-cons.1 ((λ m. not-mem-nil m), Nodup-nil),
      ))
      created_world-room

destroy-create_example :
    (w : World) × (destroy_event_set true (pos 0) created_world ≡ returned tt w)
    × SameEventsets empty_world w
unfolding created_world create_event_set name_code tolower
destroy-create_example =
    destroy-create true sample_env (pos 2) sample_names [] empty_world {id = pos 0} refl
      (λ e. ground (arith, e))
