-- ===== src/Measurement/Sampling.antt =====
-- Samples of Measurement.sample on one event set, and what the snapshots hold after them
-- (src/c/measurement.c).
pub mod Reported
use mathlib.Core.List.{append_assoc, append-nil}
use java_ubench_agent.Prelude.{
  ℕ, zero, suc, ◌+◌, ◌%◌, ◌^◌, ◌≤◌, ◌<◌, ℤ, Bool, true, none, some, ◌≡◌, refl, sym, ◌∙◌, ap, List,
  [], ◌∷◌, ◌++◌, map, arith, set, get_elem?, length, length-append, length-map, replicate, leb,
  subst, Option,
}
use java_ubench_agent.Events.Types.{Snapshot, zero_snapshot}
use java_ubench_agent.Measure.{Readings, ubench_measure_sample}
use java_ubench_agent.Measurement.State.{
  Config, Eventset, World, Outcome, returned, find_valid, put_config,
}
use java_ubench_agent.Measurement.Recording.{
  sample_one, make_room, write_at, write_in, write_next, sample,
}
use java_ubench_agent.Measurement.Bounds.{write_next-eq}
use java_ubench_agent.Measurement.Loops.{put_config_self}
use java_ubench_agent.Measurement.Benchmark.{then_call}
use java_ubench_agent.Measurement.Benchmark.Table.{for_ids-one}

-- A sample: the number that the caller gives it, and the readings of its moment.
abbrev pub Sample : Type 0
Sample = ℤ × Readings

abbrev pub sample_cell : ℕ → Sample → Snapshot
sample_cell used x = ubench_measure_sample x.1 x.0 used zero_snapshot

abbrev pub sample_cells : ℕ → List Sample → List Snapshot
sample_cells used xs = map (sample_cell used) xs

-- The snapshots hold the samples, and behind them `left` ones as calloc gave them.
pub record Sampled (xs : List Sample) (left : ℕ) (c : Config) : Type 0 where
  pub cells : c.snapshots ≡ some (sample_cells c.used_backends xs ++ replicate left zero_snapshot)
  pub size : c.data_size ≡ length xs + left
  pub index : c.data_index ≡ length xs
  pub small : c.data_size < 2 ^ 32

-- The same events and backends.
pub record SameEvents (c c' : Config) : Type 0 where
  pub used_events : c'.used_events ≡ c.used_events
  pub used_events_count : c'.used_events_count ≡ c.used_events_count
  pub used_backends : c'.used_backends ≡ c.used_backends

SameEvents-trans : {c c' c'' : Config} → SameEvents c c' → SameEvents c' c'' → SameEvents c c''
SameEvents-trans h h' = record {
  used_events = h'.used_events ∙ h.used_events;
  used_events_count = h'.used_events_count ∙ h.used_events_count;
  used_backends = h'.used_backends ∙ h.used_backends;
}

get_elem?-middle :
    (xs : List Snapshot) (s : Snapshot) (ys : List Snapshot)
    → get_elem? (xs ++ s ∷ ys) (length xs) ≡ some s
get_elem?-middle [] s ys = refl
get_elem?-middle (x ∷ xs) s ys = get_elem?-middle xs s ys

set-middle :
    (xs : List Snapshot) (s : Snapshot) (ys : List Snapshot) (v : Snapshot)
    → set (xs ++ s ∷ ys) (length xs) v ≡ (xs ++ v ∷ []) ++ ys
set-middle [] s ys v = refl
set-middle (x ∷ xs) s ys v = ap (◌∷◌ x) (set-middle xs s ys v)

sample_cells-last :
    (used : ℕ) (xs : List Sample) (x : Sample)
    → sample_cells used (xs ++ x ∷ []) ≡ sample_cells used xs ++ sample_cell used x ∷ []
sample_cells-last used [] x = refl
sample_cells-last used (y ∷ xs) x = ap (◌∷◌ (sample_cell used y)) (sample_cells-last used xs x)

sample_one-room :
    (user_id : ℤ) (r : Readings) (c : Config)
    → c.data_index < c.data_size
    → sample_one user_id r c ≡ write_next (ubench_measure_sample r user_id c.used_backends) c
unfolding sample_one make_room
sample_one-room user_id r c lt = ground (arith, lt)

-- One sample goes into the first free snapshot.
module _ (xs : List Sample) (left : ℕ) (c : Config) (x : Sample) (s : Sampled xs (suc left) c) where
  abbrev cells_before : List Snapshot
  cells_before = sample_cells c.used_backends xs ++ replicate (suc left) zero_snapshot

  abbrev cells_after : List Snapshot
  cells_after = sample_cells c.used_backends (xs ++ x ∷ []) ++ replicate left zero_snapshot

  count : length (sample_cells c.used_backends xs) ≡ c.data_index
  count = length-map (sample_cell c.used_backends) xs ∙ sym s.index

  free : get_elem? cells_before c.data_index ≡ some zero_snapshot
  free =
      ap (get_elem? cells_before) (sym count)
      ∙ get_elem?-middle (sample_cells c.used_backends xs) zero_snapshot
          (replicate left zero_snapshot)

  filled : set cells_before c.data_index (sample_cell c.used_backends x) ≡ cells_after
  filled =
      ap (λ i. set cells_before i (sample_cell c.used_backends x)) (sym count)
      ∙ set-middle (sample_cells c.used_backends xs) zero_snapshot (replicate left zero_snapshot)
          (sample_cell c.used_backends x)
      ∙ ap (λ cells. cells ++ replicate left zero_snapshot)
          (sym (sample_cells-last c.used_backends xs x))

  sample_one-Sampled :
      (c' : Config) × (sample_one x.0 x.1 c ≡ some c')
      × Sampled (xs ++ x ∷ []) left c'
      × SameEvents c c'
  sample_one-Sampled = (
    record c {
      snapshots = some (set cells_before c.data_index (sample_cell c.used_backends x));
      data_index = (c.data_index + 1) % 2 ^ 64;
    },
    sample_one-room x.0 x.1 c (omega (arith, s.index, s.size))
        ∙ write_next-eq (ubench_measure_sample x.1 x.0 c.used_backends) c cells_before s.cells free,
    record {
      cells = ap some filled;
      size = omega (arith, s.size, length-append xs (x ∷ []));
      index = omega (arith, s.index, s.size, s.small, length-append xs (x ∷ []));
      small = s.small;
    },
    record { used_events = refl; used_events_count = refl; used_backends = refl },
  )

-- Samples on an event set, as the Java code takes them one after another.
abbrev pub take_sample : Bool → ℤ → Sample → World → Outcome (Unit {0})
take_sample class_found id x w = sample class_found (λ k. x.1) x.0 (id ∷ []) w

abbrev pub take_samples : Bool → ℤ → List Sample → World → Outcome (Unit {0})
take_samples class_found id [] w = returned tt w
take_samples class_found id (x ∷ xs) w =
    then_call (take_sample class_found id x w) (take_samples class_found id xs)

-- Samples for which there is room all return, and are stored in order behind those before.
pub take_samples-Sampled :
    (class_found : Bool) (id : ℤ) (xs done : List Sample) (left : ℕ) (w : World) {e : Eventset}
    → find_valid w id ≡ some e
    → Sampled done (length xs + left) e.config
    → (w' : World) × (c : Config) × (take_samples class_found id xs w ≡ returned tt w')
      × (find_valid w' id ≡ some (record e { config = c }))
      × Sampled (done ++ xs) left c
      × SameEvents e.config c
unfolding sample
take_samples-Sampled class_found id [] done left w {e} there s = (
  w,
  e.config,
  refl,
  there,
  subst (λ xs. Sampled xs left e.config) (sym (append-nil done))
      (subst (λ n. Sampled done n e.config) (omega arith) s),
  record { used_events = refl; used_events_count = refl; used_backends = refl },
)
take_samples-Sampled class_found id (x ∷ xs) done left w {e} there s =
    let (c, samples, s1, same) =
      sample_one-Sampled done (length xs + left) e.config x
        (subst (λ n. Sampled done n e.config) (omega arith) s) in
    let w1 = put_config w id e c in
    let first = for_ids-one class_found (λ k. sample_one x.0 x.1) id w there samples in
    let (w2, c2, runs, there2, s2, same2) =
      take_samples-Sampled class_found id xs (done ++ x ∷ []) left w1 (put_config_self w id c there)
        s1 in
    (
      w2,
      c2,
      ap (λ o. then_call o (take_samples class_found id xs)) first ∙ runs,
      there2,
      subst (λ ys. Sampled ys left c2) (append_assoc done (x ∷ []) xs) s2,
      SameEvents-trans same same2,
    )
