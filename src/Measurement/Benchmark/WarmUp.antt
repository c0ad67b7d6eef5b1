-- ===== src/Measurement/Benchmark/WarmUp.antt =====
-- A benchmark with warm-up rounds that Measurement.reset forgets (src/c/measurement.c).
use java_ubench_agent.Prelude.{
  ℕ, ◌^◌, ◌<◌, ℤ, pos, Bool, some, ◌≡◌, refl, sym, ◌∙◌, ap, List, [], ◌∷◌, length, All, All-imp,
  arith, subst,
}
use java_ubench_agent.Strutil.{Text}
use java_ubench_agent.Events.Types.{Snapshot, EventInfo}
use java_ubench_agent.Measurement.State.{
  Config, Eventset, World, Outcome, returned, find_valid, put_config,
}
use java_ubench_agent.Measurement.Stages.{Env}
use java_ubench_agent.Measurement.Recording.{reset_one, reset}
use java_ubench_agent.Measurement.Create.{create_event_set}
use java_ubench_agent.Measurement.Loops.{put_config_self}
use java_ubench_agent.Measurement.Arrays.{all_made}
use java_ubench_agent.Measurement.Results.{names_of, give, get_results}
use java_ubench_agent.Measurement.Session.{Round, remembered, Remembers}
use java_ubench_agent.Measurement.Session.Rounds.{rounds-Remembers}
use java_ubench_agent.Measurement.Session.Reports.{CanMeasure, measured_rows}
use java_ubench_agent.Measurement.Benchmark.{then_call, run_rounds, HasCounters, PapiEvent, copies}
use java_ubench_agent.Measurement.Benchmark.Table.{Ends, run_rounds-Ends, for_ids-one}
use java_ubench_agent.Measurement.Benchmark.Reported.{rounds-reported}
use java_ubench_agent.Measurement.Benchmark.Prepared.{created-IsPrepared}

-- After a reset no round is remembered.
reset-Remembers :
    {m : ℕ} {xs : List Round} {c : Config} {cells : List Snapshot}
    → Remembers m xs c cells
    → Remembers m [] (record c { data_index = 0 }) cells
reset-Remembers rem = record {
  ready = record {
    allocated = rem.ready.allocated;
    sized = rem.ready.sized;
    room = rem.ready.room;
    small = rem.ready.small;
    index = omega arith;
  };
  size = rem.size;
  count = omega arith;
  index = refl;
  stored = tt;
  wide = rem.wide;
}

-- Rounds, a reset, and rounds again.
abbrev pub warmed_up : Bool → ℤ → (warm_up rounds : List Round) → World → Outcome (Unit {0})
warmed_up class_found id warm_up rounds w =
    then_call (run_rounds class_found id warm_up w)
      (λ w1. then_call (reset class_found (id ∷ []) w1) (run_rounds class_found id rounds))

reset-Ends :
    (class_found : Bool) (id : ℤ) (w : World) {e : Eventset}
    → find_valid w id ≡ some e
    → Ends class_found id w e (record e.config { data_index = 0 }) (reset class_found (id ∷ []) w)
unfolding reset reset_one
reset-Ends class_found id w {e} there =
    let c : Config = record e.config { data_index = 0 } in
    (
      put_config w id e c,
      for_ids-one class_found (λ k. reset_one) id w there refl,
      put_config_self w id c there,
    )

-- Warm-up rounds, a reset and the rounds to be reported, on an event set that remembers no round.
warm_up-reported :
    (class_found : Bool) (id : ℤ) (w : World) (m : ℕ) (warm_up rounds : List Round)
    (infos : List EventInfo) {e : Eventset} {cells : List Snapshot}
    → find_valid w id ≡ some e
    → Remembers m [] e.config cells
    → e.config.used_events ≡ some infos
    → e.config.used_events_count ≡ length infos
    → All (λ x. All (CanMeasure e.config.used_backends x) infos) rounds
    → (w' : World) × (warmed_up class_found id warm_up rounds w ≡ returned tt w')
      × (get_results class_found all_made id w'
          ≡ give w' (names_of infos) (measured_rows infos (remembered m [] rounds)))
warm_up-reported class_found id w m warm_up rounds infos {e} {cells} there rem events count can =
    let (c, warms, (cells', rem', events', count', used')) =
      rounds-Remembers m warm_up [] e.config cells rem in
    let (w1, warmed, there1) = run_rounds-Ends class_found id warm_up w e c there warms in
    let (w2, resets, there2) = reset-Ends class_found id w1 there1 in
    let (w3, ran, reported) =
      rounds-reported class_found id w2 m rounds infos there2 (reset-Remembers rem')
        (events' ∙ events) (count' ∙ count)
        (subst (λ u. All (λ x. All (CanMeasure u x) infos) rounds) (sym used') can) in
    (
      w3,
      ap
            (λ o.
              then_call o (λ w'.
                then_call (reset class_found (id ∷ []) w') (run_rounds class_found id rounds)))
            warmed
          ∙ ap (λ o. then_call o (run_rounds class_found id rounds)) resets
          ∙ ran,
      reported,
    )

-- When createEventSet for `n` measurements, positive and below 2 ^ 30, has returned an identifier
-- that is not negative, any warm-up rounds of start and stop on it, a reset and any further rounds
-- all return, and getResults, where the JVM makes every object and string, then gives the names of the events
-- and, in order, a row for each remembered round behind the reset: the last one and the first
-- `n - 1` of those before it. The row holds what the events measure between the readings of the
-- round. For the events of PAPI, PAPI has stored their counters in each round behind the reset.
pub warm_up-results :
    (env : Env) (n : ℕ) (names : List Text) (options : List ℤ) (w w1 : World) (k : ℕ)
    (warm_up rounds : List Round) (class_found : Bool) {e : Eventset} {events : List EventInfo}
    → 0 < n
    → n < 2 ^ 30
    → create_event_set env (pos n) names options w ≡ returned (pos k) w1
    → find_valid w1 (pos k) ≡ some e
    → e.config.used_events ≡ some events
    → All (λ x. All (λ event. PapiEvent event → HasCounters x event) events) rounds
    → (w2 : World) × (warmed_up class_found (pos k) warm_up rounds w1 ≡ returned tt w2)
      × (get_results class_found all_made (pos k) w2
          ≡ give w2 (copies env.dup_ok 0 names) (measured_rows events (remembered n [] rounds)))
warm_up-results env n names options w w1 k warm_up rounds class_found {e} {events} pos_n lt created
      valid used counters =
    let p = created-IsPrepared env n names options w w1 k pos_n lt created valid used in
    let (w2, ran, reported) =
      warm_up-reported class_found (pos k) w1 n warm_up rounds events valid p.remembers used p.count
        (All-imp rounds p.can_measure counters) in
    (
      w2,
      ran,
      reported
          ∙ ap (λ columns. give w2 columns (measured_rows events (remembered n [] rounds)))
              p.columns,
    )
