-- ===== src/Measurement/AddEvents.antt =====
-- src/c/measurement.c: how createEventSet adds the events of the given names.
use java_ubench_agent.Prelude.{
  ℕ, suc, ◌+◌, ◌&&◌, not, Option, none, some, List, [], ◌∷◌, ◌++◌, bit_or, ltb, ◌==◌, if◌then◌else◌,
  get_elem?, set, length, take,
}
use java_ubench_agent.Strutil.{Text, bytes}
use java_ubench_agent.Events.Types.{EventInfo, max_papi_events, backend_papi}
use java_ubench_agent.Events.Table.{ubench_event_resolve}
use java_ubench_agent.Measurement.State.{Config}
use java_ubench_agent.Measurement.Stages.{Env, Stage, broken, failed, free_blocks, going, ◌>>=◌}

-- The index of the first entry with the identifier, counted from `j`.
unfoldable pub index_of_id : ℕ → ℕ → List ℕ → Option ℕ
index_of_id id j [] = none
index_of_id id j (x ∷ xs) = if x == id then some j else index_of_id id (suc j) xs

-- The search for a registered identifier, and the registration of a new one while there is room.
unfoldable pub assign_papi_index : EventInfo → Config → EventInfo × Config
unfolding index_of_id
assign_papi_index info c = elim (index_of_id info.id 0 c.used_papi_events) [
  | some j ↦ (record info { papi_index = j }, c)
  | none ↦
      if ltb (length c.used_papi_events) max_papi_events
      then (
        record info { papi_index = length c.used_papi_events },
        record c { used_papi_events = c.used_papi_events ++ info.id ∷ [] },
      )
      else (info, c)
]

abbrev pub component_mismatch : Text
component_mismatch = bytes "PAPI components are not the same in the event set."

-- The check that all events have the same component. Nothing is released where it fails.
unfoldable pub check_component : EventInfo → Config → Stage
check_component info c =
    if ltb 1 (length c.used_papi_events) && not (c.papi_component == info.papi_component)
    then failed component_mismatch c
    else going (record c { papi_component = info.papi_component })

-- A write to the entry of `used_events` that `event_info` points to.
abbrev pub store_info : List EventInfo → ℕ → EventInfo → Config → Config
store_info cells i info c = record c { used_events = some (set cells i info) }

-- The part of the loop's body behind a successful ubench_event_resolve.
unfoldable pub add_resolved : List EventInfo → EventInfo → Config → Stage
unfolding assign_papi_index check_component
add_resolved cells info c0 =
    let i = c0.used_events_count in
    let c1 : Config = record c0 {
      used_events_count = i + 1;
      used_backends = bit_or c0.used_backends info.backend;
    } in
    let (info', c2) = assign_papi_index info c1 in
    if info.backend == backend_papi
    then check_component info' (store_info cells i info' c2)
    else going (store_info cells i info c1)

-- snprintf keeps 509 characters.
abbrev pub unrecognized : Text → Text
unrecognized name = take 509 (bytes "Unrecognized event " ++ (name ++ bytes "."))

abbrev pub add_at : Env → ℕ → Text → Config → List EventInfo → Option EventInfo → Stage
add_at env k name c cells none = broken
add_at env k name c cells (some cell) =
    let (ok, info) = ubench_event_resolve env.papi (env.dup_ok k) (some name) cell in
    if ok then add_resolved cells info c else failed (unrecognized name) (free_blocks c)

abbrev pub add_in : Env → ℕ → Text → Config → Option (List EventInfo) → Stage
add_in env k name c none = broken
add_in env k name c (some cells) = add_at env k name c cells (get_elem? cells c.used_events_count)

-- One round of the loop over the names. Without its characters the name is used all the same: it is
-- not resolved, and then printed.
unfoldable pub add_event : Env → ℕ → Text → Config → Stage
unfolding ubench_event_resolve add_resolved
add_event env k name c = if not (env.chars_ok k) then broken else add_in env k name c c.used_events

unfoldable pub add_events : Env → ℕ → List Text → Config → Stage
unfolding add_event
add_events env k [] c = going c
add_events env k (name ∷ names) c = add_event env k name c >>= add_events env (suc k) names
