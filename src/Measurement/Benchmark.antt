-- ===== src/Measurement/Benchmark.antt =====
-- A whole benchmark: createEventSet, rounds of start and stop, getResults (src/c/measurement.c, in
-- the order of README.md).
pub mod Prepared
pub mod Table
pub mod Reported
pub mod WarmUp
use java_ubench_agent.Prelude.{
  ℕ, zero, suc, ◌+◌, ◌-◌, ◌*◌, ◌%◌, ◌^◌, ◌≤◌, ◌<◌, ℤ, pos, negsuc, to_bits, of_bits32, Bool, true,
  false, Option, none, some, ◌≡◌, ◌≢◌, refl, sym, ◌∙◌, ap, List, [], ◌∷◌, ◌++◌, map, ltb, lt→ltb,
  if◌then◌else◌, get_elem?, set, length, take, replicate, length-replicate, get_elem?-set_self,
  lt_of_get_elem?, All, All-replicate, arith, subst, Option-cases, Bool-cases, ◌⊎◌, inl, inr,
}
use mathlib.Core.Path.{ap₂}
use java_ubench_agent.Strutil.{Text, ubench_str_dup}
use java_ubench_agent.Events.Types.{Snapshot, EventInfo, Getter, zero_snapshot, max_papi_events}
use java_ubench_agent.Events.Resolution.{IsResolved}
use java_ubench_agent.Measure.{Readings, uses}
use java_ubench_agent.Measurement.State.{
  Config, Eventset, World, Outcome, returned, exited, fault, if_valid, find_valid, put_config,
  index_of,
}
use java_ubench_agent.Measurement.Recording.{start_one, stop_one, for_ids, start, stop}
use java_ubench_agent.Measurement.Create.{double, positive}
use java_ubench_agent.Measurement.Stages.{Env}
use java_ubench_agent.Measurement.Create.Building.{IsAdded, Described, Building}
use java_ubench_agent.Measurement.Create.Outcomes.{asked_size-double, Success, asked_size}
use java_ubench_agent.Measurement.Create.Entries.{with_validity}
use java_ubench_agent.Measurement.Results.{
  Results, names_of, give, results_of, result_rows, get_results,
}
use java_ubench_agent.Measurement.Bounds.{IsReady}
use java_ubench_agent.Measurement.Session.{
  Round, and_then, measure_round, measure_rounds, remembered, twice, twice-eq, IsWide, Stored,
  Remembers,
}
use java_ubench_agent.Measurement.Session.Rounds.{rounds-Remembers}
use java_ubench_agent.Measurement.Session.Reports.{CanMeasure, measured_rows, result_rows-measured}

-- Twice a number of measurements that a jint can hold.
pub asked_size-pos : (n : ℕ) → 0 < n → n < 2 ^ 30 → asked_size (pos n) ≡ some (twice n)
asked_size-pos n h lt = asked_size-double n h lt ∙ ap some (omega (arith, twice-eq n))

-- An event set that has just been built for `n` rounds remembers none.
pub Building-Remembers :
    {dup_ok : ℕ → Bool} {names : List Text} {total : ℕ} (n : ℕ) {c : Config}
    → 0 < n
    → n < 2 ^ 30
    → Building dup_ok names total (twice n) c
    → Remembers n [] c (replicate (twice n) zero_snapshot)
Building-Remembers n {c} pos_n lt b = record {
  ready = record {
    allocated = b.cells;
    sized = length-replicate (twice n) zero_snapshot ∙ sym b.data_size;
    room = omega (arith, b.data_size, twice-eq n);
    small = omega (arith, b.data_size, twice-eq n);
    index = omega (arith, b.data_index);
  };
  size = b.data_size;
  count = omega arith;
  index = b.data_index;
  stored = tt;
  wide = All-replicate IsWide (twice n) zero_snapshot refl;
}

-- A call behind another one that has returned.
abbrev pub then_call {ℓ} : {A : Type ℓ} → Outcome (Unit {0}) → (World → Outcome A) → Outcome A
then_call (returned _ w) f = f w
then_call exited f = exited
then_call fault f = fault

-- One round and several on the event set with an identifier, as the Java code calls them.
abbrev pub run_round : Bool → ℤ → Round → World → Outcome (Unit {0})
run_round class_found id x w =
    then_call (start class_found (λ k. x.0) (id ∷ []) w) (stop class_found (λ k. x.1) (id ∷ []))

abbrev pub run_rounds : Bool → ℤ → List Round → World → Outcome (Unit {0})
run_rounds class_found id [] w = returned tt w
run_rounds class_found id (x ∷ xs) w =
    then_call (run_round class_found id x w) (run_rounds class_found id xs)

-- PAPI stores the counter of each PAPI event of the event set, at the start and at the stop of a
-- round, and no more counters than a snapshot has room for.
pub record HasCounters (x : Round) (event : EventInfo) : Type 0 where
  pub start_room : length x.0.papi_read.1 ≤ max_papi_events
  pub stop_room : length x.1.papi_stop.1 ≤ max_papi_events
  pub start_index : event.papi_index < length x.0.papi_read.1
  pub stop_index : event.papi_index < length x.1.papi_stop.1

abbrev pub PapiEvent : EventInfo → Type 0
PapiEvent event = event.op_get ≡ some Getter.papi

-- The copies of the names.
abbrev pub copies : (ℕ → Bool) → ℕ → List Text → List (Option Text)
copies dup_ok k [] = []
copies dup_ok k (name ∷ names) = ubench_str_dup (dup_ok k) name ∷ copies dup_ok (suc k) names
