-- ===== src/Tests/Recordings.antt =====
-- The recording calls of src/c/measurement.c on an event set for two snapshots, and what they
-- report.
use java_ubench_agent.Prelude.{
  ℕ, ◌+◌, ◌≤◌, pos, true, false, set, some, none, ◌≡◌, refl, List, [], ◌∷◌, ◌++◌, replicate, arith,
}
use java_ubench_agent.Strutil.{bytes}
use java_ubench_agent.Events.Types.{Snapshot, EventInfo, Getter, RawGetter, zero_snapshot}
use java_ubench_agent.Measure.{ubench_measure_start, ubench_measure_sample, ubench_measure_stop}
use mathlib.Core.List.{Nodup-cons, Nodup-nil, mem-cons, not-mem-nil}
use mathlib.Core.Logic.Or
use mathlib.Core.HLevel.{⊥_prop}
use java_ubench_agent.Measurement.State.{Config, World, returned, find_valid, do_throw, invalid_id}
use java_ubench_agent.Measurement.Benchmark.{then_call}
use java_ubench_agent.Measurement.Loops.{Each, next, finished, for_ids-Each}
use java_ubench_agent.Measurement.Invalid.{invalid-throws}
use java_ubench_agent.Measurement.Recording.{
  sample_one, start_one, stop_one, for_ids, start, stop, sample, reset,
}
use java_ubench_agent.Measurement.Results.{result_rows, row}
use java_ubench_agent.Measurement.Pairing.{result_rows-pairs}
use java_ubench_agent.Measurement.Bounds.{
  IsReady, Records, start_one-Records, sample_one-Records, stop_one-Records,
}
use java_ubench_agent.Measurement.Session.{Remembers, measure_rounds}
use java_ubench_agent.Measurement.Session.Rounds.{rounds-Remembers}
use java_ubench_agent.Tests.Samples.{reading, sample_rounds}

abbrev wallclock_event : EventInfo
wallclock_event = record {
  backend = 8;
  id = 0;
  papi_component = 0;
  papi_index = 0;
  op_get_raw = some RawGetter.raw_wall_clock_time;
  op_get = some Getter.wall_clock_time;
  name = some (bytes "SYS:wallclock-time");
}

abbrev two_cells : List Snapshot
two_cells = replicate 2 zero_snapshot

-- An event set for one round, with the index `i`.
abbrev small_set : List Snapshot → ℕ → Config
small_set cells i = record {
  used_backends = 8;
  used_events = some (wallclock_event ∷ []);
  used_events_count = 1;
  used_papi_events = [];
  papi_eventset = 0;
  papi_component = 0;
  snapshots = some cells;
  data_size = 2;
  data_index = i;
}

small_set-IsReady : (i : ℕ) → i ≤ 2 → IsReady (small_set two_cells i) two_cells
small_set-IsReady i le = record {
  allocated = refl;
  sized = refl;
  room = omega arith;
  small = omega arith;
  index = le;
}

start_one-Records_example :
    Records
      (ubench_measure_start (reading 1) 8)
      (small_set two_cells 2)
      two_cells
      0
      (start_one (reading 1) (small_set two_cells 2))
start_one-Records_example =
    start_one-Records (reading 1) (small_set two_cells 2) two_cells
      (small_set-IsReady 2 (omega arith))

sample_one-Records_example :
    Records
      (ubench_measure_sample (reading 1) (pos 33) 8)
      (small_set two_cells 1)
      two_cells
      1
      (sample_one (pos 33) (reading 1) (small_set two_cells 1))
sample_one-Records_example =
    sample_one-Records (pos 33) (reading 1) (small_set two_cells 1) two_cells
      (small_set-IsReady 1 (omega arith))

stop_one-Records_example :
    Records
      (ubench_measure_stop (reading 1) 8)
      (small_set two_cells 1)
      two_cells
      1
      (stop_one (reading 1) (small_set two_cells 1))
stop_one-Records_example =
    stop_one-Records (reading 1) (small_set two_cells 1) two_cells
      (small_set-IsReady 1 (omega arith)) (omega arith)

small_set-Remembers : Remembers 1 [] (small_set two_cells 0) two_cells
small_set-Remembers = record {
  ready = small_set-IsReady 0 (omega arith);
  size = refl;
  count = omega arith;
  index = refl;
  stored = tt;
  wide = (refl, (refl, tt));
}

rounds-Remembers_example :
    (c' : Config) × (measure_rounds sample_rounds (small_set two_cells 0) ≡ some c')
    × ((cells' : List Snapshot) × Remembers 1 ((reading 20, reading 29) ∷ []) c' cells'
        × (c'.used_events ≡ some (wallclock_event ∷ []))
        × (c'.used_events_count ≡ 1)
        × (c'.used_backends ≡ 8))
rounds-Remembers_example =
    rounds-Remembers 1 sample_rounds [] (small_set two_cells 0) two_cells small_set-Remembers

-- The two snapshots of one round.
abbrev one_pair : List Snapshot
one_pair =
    ubench_measure_start (reading 1) 8 zero_snapshot
    ∷ ubench_measure_stop (reading 4) 8 zero_snapshot
    ∷ []

-- A sample, a round with a sample in it, and a start that no stop follows.
abbrev mixed_cells : List Snapshot
mixed_cells =
    ubench_measure_sample (reading 1) (pos 5) 8 zero_snapshot
    ∷ ubench_measure_start (reading 2) 8 zero_snapshot
    ∷ ubench_measure_sample (reading 3) (pos 5) 8 zero_snapshot
    ∷ ubench_measure_stop (reading 7) 8 zero_snapshot
    ∷ ubench_measure_start (reading 8) 8 zero_snapshot
    ∷ []

result_rows-pairs_example :
    result_rows (mixed_cells ++ two_cells) (wallclock_event ∷ []) 6 0 5
    ≡ some ((5000000000 ∷ []) ∷ [])
unfolding ubench_measure_start ubench_measure_sample ubench_measure_stop row
result_rows-pairs_example = result_rows-pairs mixed_cells two_cells (wallclock_event ∷ [])

-- Two event sets for one round and one that is not valid.
abbrev three_sets : World
three_sets = record {
  all_eventsets =
      record { config = small_set two_cells 0; valid = true }
      ∷ record { config = small_set two_cells 0; valid = false }
      ∷ record { config = small_set two_cells 1; valid = true }
      ∷ [];
  pending = none;
}

-- The configuration behind a snapshot at the index `i`.
abbrev recorded_set : ℕ → ℕ → Config
recorded_set t i =
    small_set (set two_cells i (ubench_measure_start (reading t) 8 zero_snapshot)) (i + 1)

for_ids-Each_example :
    (w : World) × (for_ids true (λ k. start_one (reading k)) 0 (pos 2 ∷ pos 0 ∷ []) three_sets
      ≡ returned tt w)
    × Each three_sets (pos 2 ∷ pos 0 ∷ []) (recorded_set 0 1 ∷ recorded_set 1 0 ∷ []) w
unfolding find_valid start_one
for_ids-Each_example =
    for_ids-Each true (λ k. start_one (reading k)) 0 (pos 2 ∷ pos 0 ∷ []) three_sets
      (Nodup-cons.1 (
        (λ m. Or.elim ⊥_prop (mem-cons.0 m) (λ e. ground (arith, e)) (λ n. not-mem-nil n)),
        Nodup-cons.1 ((λ m. not-mem-nil m), Nodup-nil),
      ))
      (next refl refl (next refl refl (finished 2)))

invalid-throws_example :
    (start true reading (pos 2 ∷ pos 1 ∷ pos 0 ∷ []) three_sets
      ≡ then_call (start true reading (pos 2 ∷ []) three_sets) (do_throw true invalid_id tt))
    × (stop true reading (pos 2 ∷ pos 1 ∷ pos 0 ∷ []) three_sets
        ≡ then_call (stop true reading (pos 2 ∷ []) three_sets) (do_throw true invalid_id tt))
    × (sample true reading (pos 5) (pos 2 ∷ pos 1 ∷ pos 0 ∷ []) three_sets
        ≡ then_call
            (sample true reading (pos 5) (pos 2 ∷ []) three_sets)
            (do_throw true invalid_id tt))
    × (reset true (pos 2 ∷ pos 1 ∷ pos 0 ∷ []) three_sets
        ≡ then_call (reset true (pos 2 ∷ []) three_sets) (do_throw true invalid_id tt))
unfolding find_valid
invalid-throws_example =
    invalid-throws true reading (pos 5) (pos 2 ∷ []) (pos 1) (pos 0 ∷ []) three_sets ((_, refl), tt)
      refl
