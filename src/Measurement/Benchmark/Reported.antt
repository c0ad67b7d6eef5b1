-- ===== src/Measurement/Benchmark/Reported.antt =====
-- What createEventSet, the rounds of a benchmark and getResults (src/c/measurement.c) report
-- together.
use java_ubench_agent.Prelude.{
  ℕ, zero, suc, ◌-◌, ◌^◌, ◌<◌, ℤ, pos, Bool, some, ◌≡◌, refl, sym, ◌∙◌, ap, List, [], ◌∷◌, ◌++◌,
  length, take, All, All-imp, arith, subst,
}
use mathlib.Core.Path.{ap₂}
use java_ubench_agent.Strutil.{Text}
use java_ubench_agent.Events.Types.{Snapshot, EventInfo}
use java_ubench_agent.Measurement.State.{Eventset, World, returned, find_valid}
use java_ubench_agent.Measurement.Stages.{Env}
use java_ubench_agent.Measurement.Arrays.{all_made, make_results-give}
use java_ubench_agent.Measurement.Rows.{names_of-length, result_rows-HasWidth, HasWidth}
use java_ubench_agent.Measurement.Results.{
  make_results, names_of, give, results_of, result_rows, get_results,
}
use java_ubench_agent.Measurement.Session.{Round, remembered, Remembers}
use java_ubench_agent.Measurement.Session.Rounds.{rounds-Remembers}
use java_ubench_agent.Measurement.Session.Reports.{CanMeasure, measured_rows, result_rows-measured}
use java_ubench_agent.Measurement.Benchmark.{run_rounds, HasCounters, PapiEvent, copies}
use java_ubench_agent.Measurement.Create.{create_event_set}
use java_ubench_agent.Measurement.Benchmark.Table.{run_rounds-Ends}
use java_ubench_agent.Measurement.Benchmark.Prepared.{created-IsPrepared}

pub All-remembered :
    (P : Round → Type 0) (n : ℕ) (acc xs : List Round)
    → All P acc
    → All P xs
    → All P (remembered n acc xs)
All-remembered P n acc [] ha hx = ha
All-remembered P n acc (x ∷ xs) ha hx =
    All-remembered P n (take (n - 1) acc ++ x ∷ []) xs (push (n - 1) acc ha) hx.1
  where
    push : (k : ℕ) (ys : List Round) → All P ys → All P (take k ys ++ x ∷ [])
    push zero ys h = (hx.0, tt)
    push (suc k) [] h = (hx.0, tt)
    push (suc k) (y ∷ ys) h = (h.0, push k ys h.1)

pub take_whole : (infos : List EventInfo) (n : ℕ) → n ≡ length infos → take n infos ≡ infos
take_whole [] zero e = refl
take_whole [] (suc n) e = refl
take_whole (x ∷ infos) zero e = absurd (omega arith)
take_whole (x ∷ infos) (suc n) e = ap (◌∷◌ x) (take_whole infos n (omega arith))

pub get_results-valid :
    (class_found : Bool) (id : ℤ) (w : World) {e : Eventset} {infos : List EventInfo}
    {cells : List Snapshot}
    → find_valid w id ≡ some e
    → e.config.used_events ≡ some infos
    → e.config.snapshots ≡ some cells
    → e.config.used_events_count ≡ length infos
    → get_results class_found all_made id w
      ≡ give w
          (names_of infos)
          (result_rows cells infos (suc e.config.data_index) 0 e.config.data_index)
unfolding get_results
get_results-valid class_found id w {e} {infos} {cells} there events snapshots count =
    rw (there, get_results)
      (ap₂ (results_of all_made w e.config) events snapshots
        ∙ ap
            (λ used.
              make_results all_made w e.config.used_events_count (names_of used)
                (result_rows cells used (suc e.config.data_index) 0 e.config.data_index))
            (take_whole infos e.config.used_events_count count)
        ∙ make_results-give w e.config.used_events_count (names_of infos) _
            (names_of-length infos ∙ sym count)
            (subst
              (λ n.
                HasWidth n
                  (result_rows cells infos (suc e.config.data_index) 0 e.config.data_index))
              (names_of-length infos ∙ sym count)
              (result_rows-HasWidth cells infos (suc e.config.data_index) 0 e.config.data_index)))

-- Rounds on an event set that remembers none, and the report behind them.
pub rounds-reported :
    (class_found : Bool) (id : ℤ) (w : World) (m : ℕ) (rounds : List Round) (infos : List EventInfo)
    {e : Eventset} {cells : List Snapshot}
    → find_valid w id ≡ some e
    → Remembers m [] e.config cells
    → e.config.used_events ≡ some infos
    → e.config.used_events_count ≡ length infos
    → All (λ x. All (CanMeasure e.config.used_backends x) infos) rounds
    → (w' : World) × (run_rounds class_found id rounds w ≡ returned tt w')
      × (get_results class_found all_made id w'
          ≡ give w' (names_of infos) (measured_rows infos (remembered m [] rounds)))
rounds-reported class_found id w m rounds infos {e} {cells} there rem events count can =
    let (c, runs, (cells', rem', events', count', used')) =
      rounds-Remembers m rounds [] e.config cells rem in
    let (w', ran, there') = run_rounds-Ends class_found id rounds w e c there runs in
    let can' : All (λ x. All (CanMeasure c.used_backends x) infos) (remembered m [] rounds) =
      All-remembered (λ x. All (CanMeasure c.used_backends x) infos) m [] rounds tt
        (subst (λ u. All (λ x. All (CanMeasure u x) infos) rounds) (sym used') can) in
    (
      w',
      ran,
      get_results-valid class_found id w' there' (events' ∙ events) rem'.ready.allocated
            (count' ∙ count)
          ∙ ap (give w' (names_of infos))
              (result_rows-measured m (remembered m [] rounds) c cells' infos rem' can'),
    )

-- When createEventSet for `n` measurements, positive and below 2 ^ 30, has returned an identifier
-- that is not negative, any number of rounds of start and stop on it return, and getResults, where
-- the JVM makes every object and string, then gives the names of the events and, in order, a row for each round
-- that is remembered: the last round and the first `n - 1` of those before it. The row holds what
-- the events measure between the readings of the round. For the events of PAPI, PAPI has stored
-- their counters in each round.
pub benchmark-results :
    (env : Env) (n : ℕ) (names : List Text) (options : List ℤ) (w w1 : World) (k : ℕ)
    (rounds : List Round) (class_found : Bool) {e : Eventset} {events : List EventInfo}
    → 0 < n
    → n < 2 ^ 30
    → create_event_set env (pos n) names options w ≡ returned (pos k) w1
    → find_valid w1 (pos k) ≡ some e
    → e.config.used_events ≡ some events
    → All (λ x. All (λ event. PapiEvent event → HasCounters x event) events) rounds
    → (w2 : World) × (run_rounds class_found (pos k) rounds w1 ≡ returned tt w2)
      × (get_results class_found all_made (pos k) w2
          ≡ give w2 (copies env.dup_ok 0 names) (measured_rows events (remembered n [] rounds)))
benchmark-results env n names options w w1 k rounds class_found {e} {events} pos_n lt created valid
      used counters =
    let p = created-IsPrepared env n names options w w1 k pos_n lt created valid used in
    let (w2, ran, reported) =
      rounds-reported class_found (pos k) w1 n rounds events valid p.remembers used p.count
        (All-imp rounds p.can_measure counters) in
    (
      w2,
      ran,
      reported
          ∙ ap (λ columns. give w2 columns (measured_rows events (remembered n [] rounds)))
              p.columns,
    )
