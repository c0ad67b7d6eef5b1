-- ===== src/Measurement/Sampling/Reported.antt =====
-- What createEventSet, samples and getRawResults report together (src/c/measurement.c).
use mathlib.Core.Path.{ap₂}
use java_ubench_agent.Prelude.{
  ◌+◌, length-append, ℕ, suc, ◌-◌, ◌*◌, ◌^◌, ◌≤◌, ◌<◌, ℤ, pos, to_bits, Bool, true, Option, none,
  some, ◌≡◌, refl, sym, ◌∙◌, ap, List, [], ◌∷◌, ◌++◌, length, length-map, replicate, All, All-imp,
  arith, subst,
}
use java_ubench_agent.Strutil.{Text, bytes}
use java_ubench_agent.Events.Types.{Snapshot, EventInfo, Getter, zero_snapshot}
use java_ubench_agent.Events.Resolution.{IsResolved, raw_of}
use java_ubench_agent.Events.Differences.{event_raw_value-call_get_raw}
use java_ubench_agent.Events.Getters.{event_raw_value}
use java_ubench_agent.Measure.{Readings, uses}
use java_ubench_agent.Measure.Sampled.{sampled, IsCounted, call_get_raw-sampled}
use java_ubench_agent.Measure.Values.{sample-type}
use java_ubench_agent.Measurement.State.{Config, Eventset, World, returned, find_valid}
use java_ubench_agent.Measurement.Stages.{Env}
use java_ubench_agent.Measurement.Create.{create_event_set}
use java_ubench_agent.Measurement.Create.Building.{Described}
use java_ubench_agent.Measurement.Arrays.{all_made, make_results-give}
use java_ubench_agent.Measurement.Rows.{names_of-length, raw_rows-HasWidth, HasWidth}
use java_ubench_agent.Measurement.Results.{
  make_results, cons_value, cons_row, raw_row, raw_rows, names_of, give, raw_results_of,
  get_raw_results,
}
use java_ubench_agent.Measurement.Pairing.{raw_rows_of, raw_rows-recorded}
use java_ubench_agent.Measurement.Benchmark.{PapiEvent, copies}
use java_ubench_agent.Measurement.Benchmark.Reported.{take_whole}
use java_ubench_agent.Measurement.Benchmark.Prepared.{IsPrepared, created-IsPrepared}
use java_ubench_agent.Measurement.Session.{twice, twice-eq}
use java_ubench_agent.Measurement.Sampling.{
  Sample, Sampled, sample_cell, sample_cells, take_samples, take_samples-Sampled,
}

-- The row that a sample should give: what each event reads, and the number of the sample.
abbrev pub sampled_value : EventInfo → Readings → Option ℕ
sampled_value event r = elim event.op_get [ none ↦ none | some g ↦ sampled g r event ]

abbrev pub sampled_row : List EventInfo → Sample → Option (List ℕ)
sampled_row [] x = some (to_bits 64 x.0 ∷ [])
sampled_row (event ∷ events) x = cons_value (sampled_value event x.1) (sampled_row events x)

abbrev pub sampled_rows : List EventInfo → List Sample → Option (List (List ℕ))
sampled_rows events [] = some []
sampled_rows events (x ∷ xs) = cons_row (sampled_row events x) (sampled_rows events xs)

-- An event that can be read in a sample.
pub record CanSample (used : ℕ) (r : Readings) (event : EventInfo) : Type 0 where
  pub description : (dup_ok : Bool) × (name : Text) × IsResolved dup_ok name event
  pub backend : uses used event.backend ≡ true
  pub counted : PapiEvent event → IsCounted r event

sampled_value-eq :
    (event : EventInfo) (r : Readings) (g : Getter)
    → event.op_get ≡ some g
    → sampled_value event r ≡ sampled g r event
sampled_value-eq event r g e = ground (arith, e)

event_raw_value-sampled :
    (used : ℕ) (x : Sample) (event : EventInfo)
    → CanSample used x.1 event
    → event_raw_value event (sample_cell used x) ≡ sampled_value event x.1
event_raw_value-sampled used x event can =
    let r = can.description.2 in
    event_raw_value-call_get_raw (raw_of r.getter) event (sample_cell used x) r.op_get_raw
    ∙ call_get_raw-sampled x.1 x.0 used r.getter event
        (subst (λ b. uses used b ≡ true) r.backend can.backend)
        (λ e. can.counted (r.op_get ∙ ap some e))
    ∙ sym (sampled_value-eq event x.1 r.getter r.op_get)

raw_row-sampled :
    (used : ℕ) (x : Sample) (events : List EventInfo)
    → All (CanSample used x.1) events
    → raw_row events (sample_cell used x) ≡ sampled_row events x
unfolding raw_row
raw_row-sampled used x [] can =
    ap (λ t. some (to_bits 64 t ∷ [])) (sample-type x.1 used zero_snapshot x.0)
raw_row-sampled used x (event ∷ events) can =
    ap₂ cons_value (event_raw_value-sampled used x event can.0)
      (raw_row-sampled used x events can.1)

raw_rows_of-sampled :
    (used : ℕ) (events : List EventInfo) (xs : List Sample)
    → All (λ x. All (CanSample used x.1) events) xs
    → raw_rows_of events (sample_cells used xs) ≡ sampled_rows events xs
raw_rows_of-sampled used events [] can = refl
raw_rows_of-sampled used events (x ∷ xs) can =
    ap₂ cons_row (raw_row-sampled used x events can.0) (raw_rows_of-sampled used events xs can.1)

-- The raw rows of an event set that holds samples.
raw_rows-Sampled :
    (events : List EventInfo) (xs : List Sample) (left : ℕ) (c : Config)
    → Sampled xs left c
    → All (λ x. All (CanSample c.used_backends x.1) events) xs
    → raw_rows
        (sample_cells c.used_backends xs ++ replicate left zero_snapshot)
        events
        c.data_index
        0
      ≡ sampled_rows events xs
raw_rows-Sampled events xs left c s can =
    let cells = sample_cells c.used_backends xs in
    ap (λ n. raw_rows (cells ++ replicate left zero_snapshot) events n 0)
      (s.index ∙ sym (length-map (sample_cell c.used_backends) xs))
    ∙ raw_rows-recorded cells (replicate left zero_snapshot) events
    ∙ raw_rows_of-sampled c.used_backends events xs can

-- The events that createEventSet has described can be read in a sample.
Described-CanSample :
    (dup_ok : ℕ → Bool) (k : ℕ) (names : List Text) (c : Config) (infos : List EventInfo)
    (r : Readings)
    → length infos ≡ length names
    → Described dup_ok k names c infos
    → All (λ event. PapiEvent event → IsCounted r event) infos
    → All (CanSample c.used_backends r) infos
Described-CanSample dup_ok k [] c [] r same h counted = tt
Described-CanSample dup_ok k [] c (info ∷ infos) r same h counted = absurd (omega arith)
Described-CanSample dup_ok k (name ∷ names) c [] r same h counted = absurd h
Described-CanSample dup_ok k (name ∷ names) c (info ∷ infos) r same h counted = (
  record { description = (dup_ok k, name, h.0.resolved); backend = h.0.used; counted = counted.0 },
  Described-CanSample dup_ok (suc k) names c infos r (omega arith) h.1 counted.1,
)

get_raw_results-valid :
    (class_found : Bool) (id : ℤ) (w : World) {e : Eventset} {infos : List EventInfo}
    {cells : List Snapshot}
    → find_valid w id ≡ some e
    → e.config.used_events ≡ some infos
    → e.config.snapshots ≡ some cells
    → e.config.used_events_count ≡ length infos
    → get_raw_results class_found all_made id w
      ≡ give w
          (names_of infos ++ some (bytes "TYPE") ∷ [])
          (raw_rows cells infos e.config.data_index 0)
unfolding get_raw_results
get_raw_results-valid class_found id w {e} {infos} {cells} there events snapshots count =
    rw (there, get_raw_results)
      (ap₂ (raw_results_of all_made w e.config) events snapshots
        ∙ ap
            (λ used.
              make_results all_made w (e.config.used_events_count + 1)
                (names_of used ++ some (bytes "TYPE") ∷ [])
                (raw_rows cells used e.config.data_index 0))
            (take_whole infos e.config.used_events_count count)
        ∙ make_results-give w (e.config.used_events_count + 1)
            (names_of infos ++ some (bytes "TYPE") ∷ []) _
            (omega (
              arith,
              length-append (names_of infos) (some (bytes "TYPE") ∷ []),
              names_of-length infos,
              count,
            ))
            (subst (λ n. HasWidth n (raw_rows cells infos e.config.data_index 0))
              (omega (arith, names_of-length infos, count))
              (raw_rows-HasWidth cells infos e.config.data_index 0)))

IsPrepared-Sampled :
    {env : Env} {n : ℕ} {names : List Text} {c : Config} {events : List EventInfo}
    → 0 < n
    → n < 2 ^ 30
    → IsPrepared env n names c events
    → Sampled [] (twice n) c
IsPrepared-Sampled {n = n} pos_n lt p = record {
  cells = p.fresh;
  size = omega (arith, p.size);
  index = p.index;
  small = omega (arith, p.size, twice-eq n);
}

-- When createEventSet for `n` measurements, positive and below 2 ^ 30, has returned an identifier
-- that is not negative, at most `2 * n` samples on it return, and getRawResults, where the JVM
-- makes every object and string, then gives the names of the events and TYPE and, in order, a row for each
-- sample: what each event reads at its moment, and the number that the caller gave to the sample.
-- For the events of PAPI, PAPI has stored their counters in each sample.
pub sampling-results :
    (env : Env) (n : ℕ) (names : List Text) (options : List ℤ) (w w1 : World) (k : ℕ)
    (samples : List Sample) (class_found : Bool) {e : Eventset} {events : List EventInfo}
    → 0 < n
    → n < 2 ^ 30
    → create_event_set env (pos n) names options w ≡ returned (pos k) w1
    → find_valid w1 (pos k) ≡ some e
    → e.config.used_events ≡ some events
    → length samples ≤ 2 * n
    → All (λ x. All (λ event. PapiEvent event → IsCounted x.1 event) events) samples
    → (w2 : World) × (take_samples class_found (pos k) samples w1 ≡ returned tt w2)
      × (get_raw_results class_found all_made (pos k) w2
          ≡ give w2
              (copies env.dup_ok 0 names ++ some (bytes "TYPE") ∷ [])
              (sampled_rows events samples))
sampling-results env n names options w w1 k samples class_found {e} {events} pos_n lt created valid
      used room counted =
    let p = created-IsPrepared env n names options w w1 k pos_n lt created valid used in
    let left = twice n - length samples in
    let (w2, c, ran, there, sampled_c, same) =
      take_samples-Sampled class_found (pos k) samples [] left w1 valid (
        subst (λ m. Sampled [] m e.config) (omega (arith, twice-eq n, room))
          (IsPrepared-Sampled pos_n lt p)) in
    let can : All (λ x. All (CanSample c.used_backends x.1) events) samples =
      All-imp samples
        (λ x counts.
          subst (λ u. All (CanSample u x.1) events) (sym same.used_backends)
            (Described-CanSample env.dup_ok 0 names e.config events x.1 p.total p.described counts))
        counted in
    (
      w2,
      ran,
      get_raw_results-valid class_found (pos k) w2 there (same.used_events ∙ used) sampled_c.cells
            (same.used_events_count ∙ p.count)
          ∙ ap₂ (λ columns. give w2 (columns ++ some (bytes "TYPE") ∷ [])) p.columns
              (raw_rows-Sampled events samples left c sampled_c can),
    )
