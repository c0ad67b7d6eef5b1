-- ===== src/Measurement/Widths.antt =====
-- The reports of src/c/measurement.c are tables: each row has a value for each column.
use java_ubench_agent.Prelude.{ℕ, ◌+◌, ℤ, Bool, Option, some, ◌≡◌, sym, ◌∙◌, List, subst}
use mathlib.Core.Path.{ap₂}
use java_ubench_agent.Strutil.{Text}
use java_ubench_agent.Measurement.State.{Eventset, World, returned, find_valid}
use java_ubench_agent.Measurement.Results.{
  Results, make_results, results_of, raw_results_of, get_results, get_raw_results,
}
use java_ubench_agent.Measurement.Arrays.{all_made, IsTable, make_results-IsTable}
use java_ubench_agent.Measurement.Lifecycle.{Reachable, Reachable-IsWhole}
use java_ubench_agent.Measurement.Defined.{
  valid-IsSound, IsFitting, result_rows-IsFitting, raw_rows-IsFitting,
}

abbrev Tabular : World → ℕ → List (Option Text) → Option (List (List ℕ)) → Type 0
Tabular w size names rows =
    (res : Results) × (make_results all_made w size names rows ≡ returned (some res) w)
    × IsTable size res

fitting-Tabular :
    (w : World) (size : ℕ) (names : List (Option Text)) (rows : Option (List (List ℕ)))
    → IsFitting size names rows
    → Tabular w size names rows
fitting-Tabular w size names rows (rs, is, columns_fit, rows_fit) =
    subst (Tabular w size names) (sym is)
      (make_results-IsTable w size names rs columns_fit rows_fit)

-- In every world that the native methods reach, and for every valid event set there, getResults and
-- getRawResults return a report if the JVM makes every object and string. It is a table: its header
-- and each of its rows have as many entries as the event set has events in use, and one more in
-- getRawResults.
pub Reachable-IsTable :
    {w : World} (class_found : Bool) (id : ℤ) {e : Eventset}
    → Reachable w
    → find_valid w id ≡ some e
    → ((res : Results) × (get_results class_found all_made id w ≡ returned (some res) w)
        × IsTable e.config.used_events_count res)
      × ((res : Results) × (get_raw_results class_found all_made id w ≡ returned (some res) w)
          × IsTable (e.config.used_events_count + 1) res)
unfolding get_results get_raw_results
Reachable-IsTable {w} class_found id {e} reached there =
    let sound = valid-IsSound w id (Reachable-IsWhole reached) there in
    let (res, gives, table) =
      fitting-Tabular w e.config.used_events_count _ _ (result_rows-IsFitting e.config sound) in
    let (raw, gives_raw, raw_table) =
      fitting-Tabular w (e.config.used_events_count + 1) _ _ (raw_rows-IsFitting e.config sound) in
    (
      (
        res,
        rw (there, get_results)
            (ap₂ (results_of all_made w e.config) sound.events sound.ready.allocated ∙ gives),
        table,
      ),
      (
        raw,
        rw (there, get_raw_results)
            (ap₂ (raw_results_of all_made w e.config) sound.events sound.ready.allocated
              ∙ gives_raw),
        raw_table,
      ),
    )
