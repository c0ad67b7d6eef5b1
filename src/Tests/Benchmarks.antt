-- ===== src/Tests/Benchmarks.antt =====
-- createEventSet, rounds and getResults (src/c/measurement.c) on test data.
use java_ubench_agent.Prelude.{ℕ, pos, true, some, ◌≡◌, refl, List, [], ◌∷◌, ◌++◌, arith, map, All}
use java_ubench_agent.Strutil.{bytes, ubench_str_dup, tolower}
use java_ubench_agent.Events.Types.{EventInfo}
use java_ubench_agent.Measurement.State.{World, returned, find_valid}
use java_ubench_agent.Measurement.Create.{create_event_set}
use java_ubench_agent.Measurement.Create.Outcomes.{CreatesFor, create-CreatesFor}
use java_ubench_agent.Measurement.Arrays.{all_made}
use java_ubench_agent.Measurement.Results.{get_results, get_raw_results}
use java_ubench_agent.Measure.Sampled.{sampled, IsCounted}
use java_ubench_agent.Measurement.Sampling.{Sample, take_samples}
use java_ubench_agent.Measurement.Sampling.Reported.{sampling-results}
use java_ubench_agent.Measure.{Readings}
use java_ubench_agent.Measure.Values.{measured}
use java_ubench_agent.Measurement.Benchmark.WarmUp.{warmed_up, warm_up-results}
use java_ubench_agent.Measurement.Benchmark.{run_rounds, HasCounters, PapiEvent}
use java_ubench_agent.Measurement.Benchmark.Reported.{benchmark-results}
use java_ubench_agent.Tests.Samples.{
  sample_env, sample_names, reading, sample_rounds, empty_world, created_world, name_code,
}

create-CreatesFor_example :
    CreatesFor sample_env
      (pos 2)
      sample_names
      empty_world
      (create_event_set sample_env (pos 2) sample_names [] empty_world)
create-CreatesFor_example = create-CreatesFor sample_env (pos 2) sample_names [] empty_world

-- PAPI stores the one counter of the test data in every round.
counted :
    (a b : ℕ) (info : EventInfo) → info.papi_index ≡ 0 → HasCounters (reading a, reading b) info
counted a b info h = record {
  start_room = omega arith;
  stop_room = omega arith;
  start_index = omega (arith, h);
  stop_index = omega (arith, h);
}

All-counted :
    (a b : ℕ) (x y z : EventInfo)
    → x.papi_index ≡ 0
    → y.papi_index ≡ 0
    → z.papi_index ≡ 0
    → All (λ event. PapiEvent event → HasCounters (reading a, reading b) event) (x ∷ y ∷ z ∷ [])
All-counted a b x y z hx hy hz =
    (λ e. counted a b x hx, (λ e. counted a b y hy, (λ e. counted a b z hz, tt)))

benchmark-results_example :
    (w2 : World) × (run_rounds true (pos 0) sample_rounds created_world ≡ returned tt w2)
    × (get_results true all_made (pos 0) w2
        ≡ returned
            (some (record {
              event_names = map some sample_names;
              rows = (1000000000 ∷ 1 ∷ 3 ∷ []) ∷ (9000000000 ∷ 9 ∷ 27 ∷ []) ∷ [];
            }))
            w2)
unfolding created_world create_event_set find_valid name_code measured ubench_str_dup tolower
benchmark-results_example =
    benchmark-results sample_env 2 sample_names [] empty_world created_world 0 sample_rounds true
      (omega arith) (omega arith) refl refl refl
      (
        All-counted 1 2 _ _ _ refl refl refl,
        (All-counted 10 14 _ _ _ refl refl refl, (All-counted 20 29 _ _ _ refl refl refl, tt)),
      )

-- A warm-up round without counters of PAPI that fills no row of the report.
abbrev cold : Readings
cold = record (reading 0) { papi_read = (pos 0, []); papi_stop = (pos 0, []) }

warm_up-results_example :
    (w2 : World) × (warmed_up true
        (pos 0)
        ((cold, cold) ∷ [])
        ((reading 10, reading 14) ∷ [])
        created_world
      ≡ returned tt w2)
    × (get_results true all_made (pos 0) w2
        ≡ returned
            (some (record {
              event_names = map some sample_names;
              rows = (4000000000 ∷ 4 ∷ 12 ∷ []) ∷ [];
            }))
            w2)
unfolding created_world create_event_set find_valid name_code measured ubench_str_dup tolower
warm_up-results_example =
    warm_up-results sample_env 2 sample_names [] empty_world created_world 0 ((cold, cold) ∷ [])
      ((reading 10, reading 14) ∷ []) true (omega arith) (omega arith) refl refl refl
      (All-counted 10 14 _ _ _ refl refl refl, tt)

-- PAPI stores the one counter of the test data in every sample.
read_once : (t : ℕ) (info : EventInfo) → info.papi_index ≡ 0 → IsCounted (reading t) info
read_once t info h = record { room = omega arith; index = omega (arith, h) }

All-read_once :
    (t : ℕ) (x y z : EventInfo)
    → x.papi_index ≡ 0
    → y.papi_index ≡ 0
    → z.papi_index ≡ 0
    → All (λ event. PapiEvent event → IsCounted (reading t) event) (x ∷ y ∷ z ∷ [])
All-read_once t x y z hx hy hz =
    (λ e. read_once t x hx, (λ e. read_once t y hy, (λ e. read_once t z hz, tt)))

-- Three samples, two of them under one number.
abbrev three_samples : List Sample
three_samples = (pos 7, reading 1) ∷ (pos 8, reading 2) ∷ (pos 7, reading 5) ∷ []

sampling-results_example :
    (w2 : World) × (take_samples true (pos 0) three_samples created_world ≡ returned tt w2)
    × (get_raw_results true all_made (pos 0) w2
        ≡ returned
            (some (record {
              event_names = map some sample_names ++ some (bytes "TYPE") ∷ [];
              rows =
                  (1000000003 ∷ 1 ∷ 3 ∷ 7 ∷ [])
                  ∷ (2000000003 ∷ 2 ∷ 6 ∷ 8 ∷ [])
                  ∷ (5000000003 ∷ 5 ∷ 15 ∷ 7 ∷ [])
                  ∷ [];
            }))
            w2)
unfolding created_world create_event_set find_valid name_code sampled ubench_str_dup tolower
sampling-results_example =
    sampling-results sample_env 2 sample_names [] empty_world created_world 0 three_samples true
      (omega arith) (omega arith) refl refl refl (omega arith)
      (
        All-read_once 1 _ _ _ refl refl refl,
        (All-read_once 2 _ _ _ refl refl refl, (All-read_once 5 _ _ _ refl refl refl, tt)),
      )
