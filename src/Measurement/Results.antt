-- ===== src/Measurement/Results.antt =====
-- src/c/measurement.c: Measurement.getResults and getRawResults. A row of the Java object is the
-- list of the values passed to addDataRow.
use java_ubench_agent.Prelude.{
  ℕ, zero, suc, ◌+◌, ◌-◌, ◌&&◌, set, length, replicate, ℤ, int_eq, to_bits, Bool, true, false,
  Option, none, some, List, [], ◌∷◌, ◌++◌, ltb, if◌then◌else◌, get_elem?, take,
}
use java_ubench_agent.Strutil.{Text, bytes}
use java_ubench_agent.Events.Types.{Snapshot, EventInfo, type_start, type_end}
use java_ubench_agent.Events.Getters.{event_value, event_raw_value}
use java_ubench_agent.Measurement.State.{
  Config, World, Outcome, returned, fault, do_throw, find_valid, invalid_id,
}

-- An index, (size_t) -1, or a read past the end of the snapshots.
pub data Found : Type 0 where
  found : ℕ → Found
  missing : Found
  outside : Found

-- The loop of find_first_matching_snapshot_type: `left` indices from `i` on are below `max_index`.
unfoldable pub find_from : List Snapshot → (left i : ℕ) → ℤ → Found
find_from snapshots zero i type = missing
find_from snapshots (suc left) i type = elim (get_elem? snapshots i) [
  | none ↦ outside
  | some s ↦ if int_eq s.type type then found i else find_from snapshots left (suc i) type
]

unfoldable pub find_first_matching_snapshot_type : List Snapshot → Found → ℕ → ℤ → Found
unfolding find_from
find_first_matching_snapshot_type snapshots missing max_index type = missing
find_first_matching_snapshot_type snapshots outside max_index type = outside
find_first_matching_snapshot_type snapshots (found start) max_index type =
    find_from snapshots (max_index - start) start type

-- `none` is undefined behaviour, as in the getters.
abbrev pub cons_value : Option ℕ → Option (List ℕ) → Option (List ℕ)
cons_value none _ = none
cons_value (some v) none = none
cons_value (some v) (some vs) = some (v ∷ vs)

-- The values that the loop over the events stores for one row, and for one row of raw values, in
-- order; `add_rows` has the array that they are stored in.
unfoldable pub row : List EventInfo → Snapshot → Snapshot → Option (List ℕ)
unfolding event_value
row [] start end = some []
row (event ∷ events) start end = cons_value (event_value event start end) (row events start end)

-- The last value of a raw row is the type of its snapshot.
unfoldable pub raw_row : List EventInfo → Snapshot → Option (List ℕ)
unfolding event_raw_value
raw_row [] s = some (to_bits 64 s.type ∷ [])
raw_row (event ∷ events) s = cons_value (event_raw_value event s) (raw_row events s)

-- The rows so far and a new one.
abbrev pub cons_row : Option (List ℕ) → Option (List (List ℕ)) → Option (List (List ℕ))
cons_row none _ = none
cons_row (some r) none = none
cons_row (some r) (some rs) = some (r ∷ rs)

abbrev pub row_at : List EventInfo → Option Snapshot → Option Snapshot → Option (List ℕ)
row_at events none _ = none
row_at events (some start) none = none
row_at events (some start) (some end) = row events start end

-- The `while (i < i_max)` of getResults; `none` is undefined behaviour or no fuel left.
unfoldable pub result_rows :
    List Snapshot → List EventInfo → (fuel i i_max : ℕ) → Option (List (List ℕ))
unfolding find_first_matching_snapshot_type row
result_rows snapshots events zero i i_max = none
result_rows snapshots events (suc fuel) i i_max =
    let start = find_first_matching_snapshot_type snapshots (found i) i_max type_start in
    let end = find_first_matching_snapshot_type snapshots start i_max type_end in
    elim (ltb i i_max) [
      | false ↦ some []
      | true ↦ elim start [
        | missing ↦ some []
        | outside ↦ none
        | found start_index ↦ elim end [
          | missing ↦ some []
          | outside ↦ none
          | found end_index ↦
              cons_row
                (row_at events (get_elem? snapshots start_index) (get_elem? snapshots end_index))
                (result_rows snapshots events fuel (suc end_index) i_max)
        ]
      ]
    ]

abbrev pub raw_row_at : List EventInfo → Option Snapshot → Option (List ℕ)
raw_row_at events none = none
raw_row_at events (some s) = raw_row events s

-- The `while (i < i_max)` of getRawResults: `left` snapshots from `i` on.
unfoldable pub raw_rows : List Snapshot → List EventInfo → (left i : ℕ) → Option (List (List ℕ))
unfolding raw_row
raw_rows snapshots events zero i = some []
raw_rows snapshots events (suc left) i =
    cons_row (raw_row_at events (get_elem? snapshots i)) (raw_rows snapshots events left (suc i))

-- A BenchmarkResultsImpl: the names of the columns and the rows.
pub record Results : Type 0 where
  pub event_names : List (Option Text)
  pub rows : List (List ℕ)

abbrev pub names_of : List EventInfo → List (Option Text)
names_of [] = []
names_of (event ∷ events) = event.name ∷ names_of events

-- Stores at the indices from `i` on of a Java array, as long as each is inside the array and `ok`
-- holds of its value: the strings of the names, and the values of a row.
unfoldable pub store_each {ℓ} : {A : Type ℓ} → (A → Bool) → List A → ℕ → List A → Option (List A)
store_each ok array i [] = some array
store_each ok array i (v ∷ vs) =
    let rest = store_each ok (set array i v) (suc i) vs in
    if ok v && ltb i (length array) then rest else none

-- What the JVM answers: whether each class, method and object that the calls ask for is there, and
-- whether NewStringUTF gives a string for a name (`none` is NULL).
pub record Objects : Type 0 where
  pub results_class_found : Bool
  pub string_class_found : Bool
  pub names_made : Bool
  pub string_made : Option Text → Bool
  pub constructor_found : Bool
  pub results_made : Bool
  pub values_made : Bool
  pub add_data_found : Bool

-- The array of the names; the result of NewObjectArray is used without a test.
unfoldable pub names_array : Objects → ℕ → List (Option Text) → Option (List (Option Text))
unfolding store_each
names_array objects size names =
    if objects.names_made
    then store_each objects.string_made (replicate size none) 0 names
    else none

-- The calls of addDataRow, one for each row: all store their values in the one array `event_values`.
unfoldable pub add_rows : List ℕ → List (List ℕ) → Option (List (List ℕ))
unfolding store_each
add_rows event_values [] = some []
add_rows event_values (values ∷ rows) = elim (store_each (λ v. true) event_values 0 values) [
  | none ↦ none
  | some stored ↦ cons_row (some stored) (add_rows stored rows)
]

abbrev pub add_all_rows : List ℕ → Option (List (List ℕ)) → Option (List (List ℕ))
add_all_rows event_values none = none
add_all_rows event_values (some rows) = add_rows event_values rows

-- The end of a call, from the names and the rows in the object.
abbrev pub give : World → List (Option Text) → Option (List (List ℕ)) → Outcome (Option Results)
give w names none = fault
give w names (some rows) = returned (some (record { event_names = names; rows = rows })) w

-- The result behind the array of the names, with an array `event_values` of `size`; a call that
-- fails is answered by NULL.
abbrev pub fill_results :
    Objects
    → World
    → ℕ
    → Option (List (Option Text))
    → Option (List (List ℕ))
    → Outcome (Option Results)
fill_results objects w size none rows = fault
fill_results objects w size (some names) rows =
    if objects.constructor_found
      && (objects.results_made && (objects.values_made && objects.add_data_found))
    then give w names (add_all_rows (replicate size 0) rows)
    else returned none w

-- The arrays of the names and of the values have the same size.
unfoldable pub make_results :
    Objects → World → ℕ → List (Option Text) → Option (List (List ℕ)) → Outcome (Option Results)
unfolding names_array add_rows
make_results objects w size names rows =
    if objects.results_class_found && objects.string_class_found
    then fill_results objects w size (names_array objects size names) rows
    else returned none w

-- The events in use, and the snapshots.
abbrev pub results_of :
    Objects
    → World
    → Config
    → Option (List EventInfo)
    → Option (List Snapshot)
    → Outcome (Option Results)
results_of objects w c (some events) (some snapshots) =
    let used = take c.used_events_count events in
    make_results objects w c.used_events_count (names_of used)
      (result_rows snapshots used (suc c.data_index) 0 c.data_index)
results_of objects w c none _ = fault
results_of objects w c (some events) none = fault

abbrev pub raw_results_of :
    Objects
    → World
    → Config
    → Option (List EventInfo)
    → Option (List Snapshot)
    → Outcome (Option Results)
raw_results_of objects w c (some events) (some snapshots) =
    let used = take c.used_events_count events in
    make_results objects w (c.used_events_count + 1) (names_of used ++ some (bytes "TYPE") ∷ [])
      (raw_rows snapshots used c.data_index 0)
raw_results_of objects w c none _ = fault
raw_results_of objects w c (some events) none = fault

unfoldable pub get_results : Bool → Objects → ℤ → World → Outcome (Option Results)
unfolding find_valid do_throw result_rows make_results
get_results class_found objects id w = elim (find_valid w id) [
  | none ↦ do_throw class_found invalid_id none w
  | some e ↦ results_of objects w e.config e.config.used_events e.config.snapshots
]

unfoldable pub get_raw_results : Bool → Objects → ℤ → World → Outcome (Option Results)
unfolding find_valid do_throw raw_rows make_results
get_raw_results class_found objects id w = elim (find_valid w id) [
  | none ↦ do_throw class_found invalid_id none w
  | some e ↦ raw_results_of objects w e.config e.config.used_events e.config.snapshots
]
