-- ===== src/Measurement/Create.antt =====
-- src/c/measurement.c: Measurement.createEventSet and destroyEventSet.
pub mod Backends
pub mod Building
pub mod PapiSetup
pub mod Adding
pub mod Entries
pub mod Outcomes
use java_ubench_agent.Prelude.{
  ℕ, zero, suc, ◌+◌, ◌*◌, ◌%◌, ◌^◌, ℤ, pos, negsuc, minus_one, int_eq, to_bits, of_bits32, Bool,
  true, false, ◌&&◌, not, Option, none, some, List, [], ◌∷◌, ◌++◌, bit_or, ltb, ◌==◌, if◌then◌else◌,
  get_elem?, set, length, take, replicate,
}
use java_ubench_agent.Strutil.{Text, bytes}
use java_ubench_agent.Events.Types.{
  Snapshot, EventInfo, zero_snapshot, zero_info, max_papi_events, backend_papi,
}
use java_ubench_agent.Events.Getters.{is_papi_ok}
use java_ubench_agent.Events.Papi.{Papi}
use java_ubench_agent.Events.Table.{ubench_event_resolve}
use java_ubench_agent.Measure.{uses}
use java_ubench_agent.Measurement.State.{
  Config, Eventset, World, Outcome, returned, exited, fault, do_throw, find_valid, put_config,
  index_of, invalid_id,
}
use java_ubench_agent.Measurement.Stages.{
  Env, PapiCalls, Stage, broken, failed, free_blocks, going, out_of_memory, papi_error, ◌>>=◌,
}
use java_ubench_agent.Measurement.AddEvents.{
  add_at, add_event, add_events, add_in, add_resolved, assign_papi_index, check_component,
  component_mismatch, index_of_id, store_info, unrecognized,
}

-- `jmeasurements *= 2` on a jint; `none` is an overflow, which is undefined.
unfoldable pub double : ℤ → Option ℤ
double (pos n) = if ltb n (2 ^ 30) then some (pos (n * 2)) else none
double (negsuc n) = if ltb n (2 ^ 30) then some (negsuc (n * 2 + 1)) else none

-- A PAPI call that has to return PAPI_OK; otherwise both blocks are freed.
abbrev pub must : Env → Text → ℤ → Config → Stage
must env function rc c =
    if is_papi_ok rc then going c else failed (papi_error env.calls rc function) (free_blocks c)

-- Measurement.THREAD_INHERIT
abbrev pub thread_inherit : ℤ
thread_inherit = pos 1

unfoldable pub set_options : Env → ℕ → List ℤ → Config → Stage
set_options env k [] c = going c
set_options env k (option ∷ options) c =
    (if int_eq option thread_inherit
      then must env (bytes "PAPI_set_opt(PAPI_INHERIT)") (env.calls.set_inherit k) c
      else going c)
    >>= set_options env (suc k) options

unfoldable pub add_papi_events : Env → List ℕ → Config → Stage
add_papi_events env [] c = going c
add_papi_events env (id ∷ ids) c =
    must env (bytes "PAPI_add_event") (env.calls.add_event c.papi_eventset id) c
    >>= add_papi_events env ids

-- The block `if ((used_backends & UBENCH_EVENT_BACKEND_PAPI) > 0)`, between the calls that get and
-- release the elements of the options.
unfoldable pub setup_papi : Env → List ℤ → Config → Stage
unfolding uses set_options add_papi_events
setup_papi env options c0 =
    let (rc, eventset) = env.calls.create_eventset in
    let c1 : Config = record c0 { papi_eventset = eventset } in
    if not env.options_ok
    then broken
    else if uses c0.used_backends backend_papi
    then must env (bytes "PAPI_create_eventset") rc c1
      >>= must env (bytes "PAPI_assign_eventset_component")
          (env.calls.assign_component eventset c0.papi_component)
      >>= set_options env 0 options
      >>= add_papi_events env c0.used_papi_events
    else going c0

-- The two allocations, of `size` snapshots and of `count` descriptions.
unfoldable pub allocate : Env → (size count : ℕ) → Config → Stage
allocate env size count c =
    if not env.data_ok
    then failed (out_of_memory (bytes "allocating place for measurements"))
        (record c { used_backends = 0; snapshots = none })
    else if not env.events_ok
    then failed (out_of_memory (bytes "allocating place for event metadata")) (record c {
      used_backends = 0;
      snapshots = none;
      data_index = 0;
      data_size = size;
      used_events = none;
    })
    else going (record {
      used_backends = 0;
      snapshots = some (replicate size zero_snapshot);
      data_index = 0;
      data_size = size;
      used_events = some (replicate count zero_info);
      used_events_count = 0;
      papi_eventset = env.calls.papi_null;
      papi_component = 0;
      used_papi_events = [];
    })

-- The construction of the event set in its entry.
unfoldable pub build : Env → ℕ → List Text → List ℤ → Config → Stage
unfolding allocate add_events setup_papi
build env size names options c =
    allocate env size (length names) c >>= add_events env 0 names >>= setup_papi env options

-- The index of the first entry that is not valid, counted from `i`.
unfoldable pub find_free : ℕ → List Eventset → Option ℕ
find_free i [] = none
find_free i (e ∷ es) = if e.valid then find_free (suc i) es else some i

-- The end of the call, on the entry `i`.
abbrev pub finish : Env → ℕ → World → Stage → Outcome ℤ
finish env i w broken = fault
finish env i w (failed message c) =
    do_throw env.class_found message minus_one
      (record w { all_eventsets = set w.all_eventsets i (record { config = c; valid = false }) })
finish env i w (going c) =
    returned (pos i)
      (record w { all_eventsets = set w.all_eventsets i (record { config = c; valid = true }) })

-- The entry `i` is not valid, so it may be built anew.
abbrev pub build_at : Env → ℕ → List Text → List ℤ → ℕ → World → Option Eventset → Outcome ℤ
build_at env size names options i w none = fault
build_at env size names options i w (some e) =
    finish env i w (build env size names options e.config)

-- The table after realloc and `all_eventset_count++`.
abbrev pub grow : Env → World → World
grow env w = record w {
  all_eventsets = w.all_eventsets ++ record { config = env.new_config; valid = false } ∷ [];
}

-- The choice of the entry: a free one, or a new one at the end.
abbrev pub with_entry : Env → ℕ → List Text → List ℤ → World → Option ℕ → Outcome ℤ
with_entry env size names options w (some i) =
    build_at env size names options i w (get_elem? w.all_eventsets i)
with_entry env size names options w none =
    if env.realloc_ok
    then finish env (length w.all_eventsets) (grow env w)
        (build env size names options env.new_config)
    else do_throw env.class_found (out_of_memory (bytes "allocating an event set")) minus_one w

abbrev pub positive : ℤ → Option ℕ
positive (pos zero) = none
positive (pos (suc n)) = some (suc n)
positive (negsuc n) = none

abbrev pub create_sized : Env → List Text → List ℤ → World → Option ℕ → Outcome ℤ
create_sized env names options w none =
    do_throw env.class_found (bytes "Number of measurements has to be positive.") minus_one w
create_sized env [] options w (some size) =
    do_throw env.class_found (bytes "List of events cannot be empty.") minus_one w
create_sized env (name ∷ names) options w (some size) =
    with_entry env size (name ∷ names) options w (find_free 0 w.all_eventsets)

abbrev pub create_doubled : Env → List Text → List ℤ → World → Option ℤ → Outcome ℤ
create_doubled env names options w none = fault
create_doubled env names options w (some count) = create_sized env names options w (positive count)

unfoldable pub create_event_set : Env → ℤ → List Text → List ℤ → World → Outcome ℤ
unfolding double build find_free do_throw
create_event_set env jmeasurements names options w =
    create_doubled env names options w (double jmeasurements)

-- free of the two blocks of a valid event set; a block that is not allocated is a fault.
abbrev pub free_both :
    ℤ → World → Eventset → Option (List EventInfo) → Option (List Snapshot) → Outcome (Unit {0})
free_both id w e (some events) (some snapshots) = returned tt (record w {
  all_eventsets =
      set w.all_eventsets (index_of id) (record { config = free_blocks e.config; valid = false });
})
free_both id w e none _ = fault
free_both id w e (some events) none = fault

unfoldable pub destroy_event_set : Bool → ℤ → World → Outcome (Unit {0})
unfolding find_valid do_throw
destroy_event_set class_found id w = elim (find_valid w id) [
  | none ↦ do_throw class_found invalid_id tt w
  | some e ↦ free_both id w e e.config.used_events e.config.snapshots
]
