-- ===== src/Measurement/Session/Reports.antt =====
-- What Measurement.getResults reports after a benchmark's loop (src/c/measurement.c).
use mathlib.Core.Path.{ap₂}
use java_ubench_agent.Prelude.{
  ℕ, zero, suc, ◌+◌, ◌-◌, ◌≤◌, ◌<◌, true, Option, none, some, ◌≡◌, refl, sym, ◌∙◌, ap, List, [],
  ◌∷◌, lt→ltb, get_elem?, length, All, arith,
}
use java_ubench_agent.Events.Types.{
  Snapshot, EventInfo, Getter, type_start, type_end, max_papi_events,
}
use java_ubench_agent.Events.Getters.{event_value, call_get}
use java_ubench_agent.Events.Resolution.{backend_of}
use java_ubench_agent.Measure.{uses}
use java_ubench_agent.Measure.Values.{measured, call_get-measured, start-type, stop-type}
use java_ubench_agent.Measurement.State.{Config}
use java_ubench_agent.Measurement.Results.{
  found, find_from, find_first_matching_snapshot_type, cons_value, row, cons_row, row_at,
  result_rows,
}
use java_ubench_agent.Measurement.Session.{Round, twice, twice-eq, Pair, Stored, Remembers}

-- An event that the event set can measure in a round: its getter is set, its backend is used, and
-- PAPI stores its counter, if it is one of PAPI's.
pub record CanMeasure (used : ℕ) (x : Round) (event : EventInfo) : Type 0 where
  pub getter : Getter
  pub op_get : event.op_get ≡ some getter
  pub backend : uses used (backend_of getter) ≡ true
  pub counters :
      getter ≡ Getter.papi
      → (length x.0.papi_read.1 ≤ max_papi_events)
        × (length x.1.papi_stop.1 ≤ max_papi_events)
        × (event.papi_index < length x.0.papi_read.1)
        × (event.papi_index < length x.1.papi_stop.1)

abbrev pub measured_value : Option Getter → Round → EventInfo → Option ℕ
measured_value none x event = none
measured_value (some g) x event = measured g x.0 x.1 event

-- What the events measure in a round, and in each of several.
abbrev pub measured_row : List EventInfo → Round → Option (List ℕ)
measured_row [] x = some []
measured_row (event ∷ events) x =
    cons_value (measured_value event.op_get x event) (measured_row events x)

abbrev pub measured_rows : List EventInfo → List Round → Option (List (List ℕ))
measured_rows events [] = some []
measured_rows events (x ∷ xs) = cons_row (measured_row events x) (measured_rows events xs)

value-measured :
    (used : ℕ) (x : Round) (event : EventInfo) (s t : Snapshot)
    → CanMeasure used x event
    → Pair used x s t
    → event_value event s t ≡ measured_value event.op_get x event
unfolding event_value
value-measured used x event s t can p =
    ap (by_getter s t) can.op_get
    ∙ ap₂ (λ a b. call_get can.getter a b event) p.start p.stop
    ∙ call_get-measured can.getter x.0 x.1 used p.old_start p.old_stop event can.backend (λ e.
      let (r0, r1, i0, i1) = can.counters e in
      record {
        start_room = omega (arith, p.wide_start);
        stop_room = omega (arith, p.wide_stop);
        start_index = i0;
        stop_index = i1;
      })
    ∙ sym (ap (λ o. measured_value o x event) can.op_get)
  where
    by_getter : Snapshot → Snapshot → Option Getter → Option ℕ
    by_getter a b o = elim o [ none ↦ none | some g ↦ call_get g a b event ]

row-measured :
    (used : ℕ) (x : Round) (events : List EventInfo) (s t : Snapshot)
    → All (CanMeasure used x) events
    → Pair used x s t
    → row events s t ≡ measured_row events x
unfolding row
row-measured used x [] s t can p = refl
row-measured used x (event ∷ events) s t can p =
    ap₂ cons_value (value-measured used x event s t can.0 p)
      (row-measured used x events s t can.1 p)

-- The two searches of one round of getResults, at a pair.
module _ (cells : List Snapshot) (l i : ℕ) {s t : Snapshot} (at_s : get_elem? cells i ≡ some s)
    (at_t : get_elem? cells (suc i) ≡ some t) (start : s.type ≡ type_start)
    (end : t.type ≡ type_end) where
  start_found : find_from cells (suc (suc l)) i type_start ≡ found i
  unfolding find_from
  start_found = ground arith

  end_found : find_from cells (suc (suc l)) i type_end ≡ found (suc i)
  unfolding find_from
  end_found = ground arith

-- One round of getResults that finds a pair.
pub result_rows-step :
    (cells : List Snapshot) (events : List EventInfo) (fuel i i_max a b : ℕ)
    → i < i_max
    → find_first_matching_snapshot_type cells (found i) i_max type_start ≡ found a
    → find_first_matching_snapshot_type cells (found a) i_max type_end ≡ found b
    → result_rows cells events (suc fuel) i i_max
      ≡ cons_row
          (row_at events (get_elem? cells a) (get_elem? cells b))
          (result_rows cells events fuel (suc b) i_max)
unfolding result_rows
result_rows-step cells events fuel i i_max a b lt ea eb = ground (arith, lt→ltb i i_max lt, ea, eb)

-- `cells` is what stands in `whole` from `i` on.
abbrev StandsAt : List Snapshot → ℕ → List Snapshot → Type 0
StandsAt whole i cells = (k : ℕ) → get_elem? whole (i + k) ≡ get_elem? cells k

pub result_rows_end :
    (cells : List Snapshot) (events : List EventInfo) (fuel i i_max : ℕ)
    → i_max ≡ i
    → result_rows cells events (suc fuel) i i_max ≡ some []
unfolding result_rows
result_rows_end cells events fuel i i_max e = ground arith

result_rows-Stored :
    (used : ℕ) (events : List EventInfo) (whole : List Snapshot) (xs : List Round)
    (cells : List Snapshot) (i i_max fuel : ℕ)
    → StandsAt whole i cells
    → Stored used xs cells
    → All (λ x. All (CanMeasure used x) events) xs
    → i_max ≡ i + twice (length xs)
    → length xs < fuel
    → result_rows whole events fuel i i_max ≡ measured_rows events xs
result_rows-Stored used events whole xs cells i i_max zero at h can e lt = absurd (omega arith)
result_rows-Stored used events whole [] cells i i_max (suc fuel) at h can e lt =
    result_rows_end whole events fuel i i_max (omega arith)
result_rows-Stored used events whole (x ∷ xs) [] i i_max (suc fuel) at h can e lt = absurd h
result_rows-Stored used events whole (x ∷ xs) (s ∷ []) i i_max (suc fuel) at h can e lt = absurd h
result_rows-Stored used events whole (x ∷ xs) (s ∷ t ∷ cells) i i_max (suc fuel) at h can e lt =
    result_rows-step whole events fuel i i_max i (suc i) (omega arith) first second
    ∙ ap₂ cons_row (ap₂ (row_at events) at_s at_t ∙ row-measured used x events s t can.0 h.0) (
        result_rows-Stored used events whole xs cells (suc (suc i)) i_max fuel
          (λ k. ap (get_elem? whole) (omega arith) ∙ at (suc (suc k))) h.1 can.1 (omega arith)
          (omega arith))
  where
    at_s : get_elem? whole i ≡ some s
    at_s = ap (get_elem? whole) (omega arith) ∙ at 0

    at_t : get_elem? whole (suc i) ≡ some t
    at_t = ap (get_elem? whole) (omega arith) ∙ at 1

    start : s.type ≡ type_start
    start = ap (λ y. y.type) h.0.start ∙ start-type x.0 used h.0.old_start

    end : t.type ≡ type_end
    end = ap (λ y. y.type) h.0.stop ∙ stop-type x.1 used h.0.old_stop

    left : i_max - i ≡ suc (suc (twice (length xs)))
    left = omega arith

    first : find_first_matching_snapshot_type whole (found i) i_max type_start ≡ found i
    first =
        unfold find_first_matching_snapshot_type in
        (ap (λ k. find_from whole k i type_start) left
          ∙ start_found whole (twice (length xs)) i at_s at_t start end)

    second : find_first_matching_snapshot_type whole (found i) i_max type_end ≡ found (suc i)
    second =
        unfold find_first_matching_snapshot_type in
        (ap (λ k. find_from whole k i type_end) left
          ∙ end_found whole (twice (length xs)) i at_s at_t start end)

-- Where an event set remembers some rounds and can measure its events in each of them, getResults
-- computes one row for each of these rounds, in order, of what the events measured in it. The loop
-- has more fuel than rounds.
pub result_rows-measured :
    (m : ℕ) (xs : List Round) (c : Config) (cells : List Snapshot) (events : List EventInfo)
    → Remembers m xs c cells
    → All (λ x. All (CanMeasure c.used_backends x) events) xs
    → result_rows cells events (suc c.data_index) 0 c.data_index ≡ measured_rows events xs
result_rows-measured m xs c cells events rem can =
    result_rows-Stored c.used_backends events cells xs cells 0 c.data_index (suc c.data_index)
      (λ k. ap (get_elem? cells) (omega arith)) rem.stored can (omega (arith, rem.index))
      (omega (arith, rem.index, twice-eq (length xs)))
