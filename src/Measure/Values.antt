-- ===== src/Measure/Values.antt =====
-- The values that the events of a running event set have between ubench_measure_start and
-- ubench_measure_stop (src/c/measure.c, with the getters of src/c/events.c).
use java_ubench_agent.Prelude.{
  ℕ, ◌%◌, ◌^◌, ℤ, true, List, [], ◌∷◌, Option, some, ◌≡◌, refl, arith, sub64, sign_extend,
  get_elem?, get_elem?-lt, ap, not, ◌+◌, ◌*◌, length, ◌<◌, ◌≤◌, if◌then◌else◌, zero, suc,
}
use java_ubench_agent.Events.Types.{
  Snapshot, EventInfo, Getter, type_start, type_end, backend_resource_usage, backend_papi,
  backend_sys_wallclock, backend_jvm_compilations, backend_sys_threadtime,
}
use java_ubench_agent.Events.Getters.{
  call_get, is_papi_ok, rc_value, counter_diff, timespec_diff_ns, timeval_diff_us, getter_papi,
}
use java_ubench_agent.Events.Resolution.{backend_of}
use java_ubench_agent.Measure.{
  Readings, uses, store, ubench_measure_start, ubench_measure_sample, ubench_measure_stop,
}

pub get_elem?-store :
    (vs old : List ℕ) (i : ℕ) {v : ℕ}
    → length vs ≤ length old
    → get_elem? vs i ≡ some v
    → get_elem? (store vs old) i ≡ some v
unfolding store
get_elem?-store [] old i le e = cc
get_elem?-store (v ∷ vs) [] i le e = absurd (omega arith)
get_elem?-store (v ∷ vs) (o ∷ old) zero le e = e
get_elem?-store (v ∷ vs) (o ∷ old) (suc i) le e = get_elem?-store vs old i (omega arith) e

-- The fields behind ubench_measure_start and ubench_measure_stop.
module _ (r : Readings) (used : ℕ) (s : Snapshot) where
  start-timestamp :
      uses used backend_sys_wallclock ≡ true
      → (ubench_measure_start r used s).timestamp ≡ r.wall_clock
  unfolding ubench_measure_start
  start-timestamp h = ground arith

  stop-timestamp :
      uses used backend_sys_wallclock ≡ true
      → (ubench_measure_stop r used s).timestamp ≡ r.wall_clock
  unfolding ubench_measure_stop
  stop-timestamp h = ground arith

  start-threadtime :
      uses used backend_sys_threadtime ≡ true
      → (ubench_measure_start r used s).threadtime ≡ r.thread_clock
  unfolding ubench_measure_start
  start-threadtime h = ground arith

  stop-threadtime :
      uses used backend_sys_threadtime ≡ true
      → (ubench_measure_stop r used s).threadtime ≡ r.thread_clock
  unfolding ubench_measure_stop
  stop-threadtime h = ground arith

  start-compilations :
      uses used backend_jvm_compilations ≡ true
      → (ubench_measure_start r used s).compilations ≡ sign_extend (r.compilations % 2 ^ 32)
  unfolding ubench_measure_start
  start-compilations h = ground arith

  stop-compilations :
      uses used backend_jvm_compilations ≡ true
      → (ubench_measure_stop r used s).compilations ≡ sign_extend (r.compilations % 2 ^ 32)
  unfolding ubench_measure_stop
  stop-compilations h = ground arith

  start-rusage :
      uses used backend_resource_usage ≡ true
      → (ubench_measure_start r used s).resource_usage ≡ r.rusage
  unfolding ubench_measure_start
  start-rusage h = ground arith

  stop-rusage :
      uses used backend_resource_usage ≡ true
      → (ubench_measure_stop r used s).resource_usage ≡ r.rusage
  unfolding ubench_measure_stop
  stop-rusage h = ground arith

  start-papi :
      uses used backend_papi ≡ true
      → ((ubench_measure_start r used s).papi_rc1 ≡ r.papi_read.0)
        × ((ubench_measure_start r used s).papi_rc2 ≡ r.papi_start)
        × ((ubench_measure_start r used s).papi_events ≡ store r.papi_read.1 s.papi_events)
  unfolding ubench_measure_start
  start-papi h = (ground arith, ground arith, ground arith)

  stop-papi :
      uses used backend_papi ≡ true
      → ((ubench_measure_stop r used s).papi_rc1 ≡ r.papi_stop.0)
        × ((ubench_measure_stop r used s).papi_events ≡ store r.papi_stop.1 s.papi_events)
  unfolding ubench_measure_stop
  stop-papi h = (ground arith, ground arith)

  -- The kind of the snapshot.
  pub start-type : (ubench_measure_start r used s).type ≡ type_start
  unfolding ubench_measure_start
  start-type = ground arith

  pub stop-type : (ubench_measure_stop r used s).type ≡ type_end
  unfolding ubench_measure_stop
  stop-type = refl

  pub sample-type : (user_id : ℤ) → (ubench_measure_sample r user_id used s).type ≡ user_id
  unfolding ubench_measure_sample
  sample-type user_id = ground arith

-- What an event measures between two readings. For a PAPI event: the first PAPI call that failed,
-- or the difference of its counter.
unfoldable pub measured : Getter → Readings → Readings → EventInfo → Option ℕ
unfolding timespec_diff_ns timeval_diff_us
measured Getter.wall_clock_time r q info = some (timespec_diff_ns r.wall_clock q.wall_clock)
measured Getter.thread_time r q info = some (timespec_diff_ns r.thread_clock q.thread_clock)
measured Getter.jvm_compilations r q info =
    some (sub64 (sign_extend (q.compilations % 2 ^ 32)) (sign_extend (r.compilations % 2 ^ 32)))
measured Getter.context_switch_forced r q info = some (sub64 q.rusage.ru_nivcsw r.rusage.ru_nivcsw)
measured Getter.thread_time_rusage r q info = some (
    ((timeval_diff_us r.rusage.ru_utime q.rusage.ru_utime
        + timeval_diff_us r.rusage.ru_stime q.rusage.ru_stime)
      % 2 ^ 64
      * 1000)
    % 2 ^ 64)
measured Getter.papi r q info =
    if not (is_papi_ok r.papi_read.0)
    then rc_value r.papi_read.0
    else if not (is_papi_ok r.papi_start)
    then rc_value r.papi_start
    else if not (is_papi_ok q.papi_stop.0)
    then rc_value q.papi_stop.0
    else counter_diff (get_elem? q.papi_stop.1 info.papi_index)
        (get_elem? r.papi_read.1 info.papi_index)

-- PAPI stored a counter at the event's index, both times, and no more counters than there is room.
pub record HasCounter (r q : Readings) (s t : Snapshot) (info : EventInfo) : Type 0 where
  pub start_room : length r.papi_read.1 ≤ length s.papi_events
  pub stop_room : length q.papi_stop.1 ≤ length t.papi_events
  pub start_index : info.papi_index < length r.papi_read.1
  pub stop_index : info.papi_index < length q.papi_stop.1

getter_papi-measured :
    (r q : Readings) (used : ℕ) (s t : Snapshot) (info : EventInfo)
    → uses used backend_papi ≡ true
    → HasCounter r q s t info
    → getter_papi (ubench_measure_start r used s) (ubench_measure_stop q used t) info
      ≡ measured Getter.papi r q info
unfolding getter_papi measured
getter_papi-measured r q used s t info h c =
    let (rc1, rc2, events) = start-papi r used s h in
    let (end1, end_events) = stop-papi q used t h in
    let (a, at_a) = get_elem?-lt r.papi_read.1 info.papi_index c.start_index in
    let (b, at_b) = get_elem?-lt q.papi_stop.1 info.papi_index c.stop_index in
    rw
      (
        rc1,
        rc2,
        events,
        end1,
        end_events,
        at_a,
        at_b,
        get_elem?-store r.papi_read.1 s.papi_events info.papi_index c.start_room at_a,
        get_elem?-store q.papi_stop.1 t.papi_events info.papi_index c.stop_room at_b,
      )
      refl

-- Of an event whose backend the event set uses, the value over what ubench_measure_start and
-- ubench_measure_stop store is what the event measures between the two readings, whatever the
-- snapshots held before. For a PAPI event, PAPI has stored its counter both times.
pub call_get-measured :
    (g : Getter) (r q : Readings) (used : ℕ) (s t : Snapshot) (info : EventInfo)
    → uses used (backend_of g) ≡ true
    → (g ≡ Getter.papi → HasCounter r q s t info)
    → call_get g (ubench_measure_start r used s) (ubench_measure_stop q used t) info
      ≡ measured g r q info
unfolding call_get measured
call_get-measured Getter.wall_clock_time r q used s t info h c =
    ap some (rw (start-timestamp r used s h, stop-timestamp q used t h))
call_get-measured Getter.thread_time r q used s t info h c =
    ap some (rw (start-threadtime r used s h, stop-threadtime q used t h))
call_get-measured Getter.jvm_compilations r q used s t info h c =
    ap some (rw (start-compilations r used s h, stop-compilations q used t h))
call_get-measured Getter.context_switch_forced r q used s t info h c =
    ap some (rw (start-rusage r used s h, stop-rusage q used t h))
call_get-measured Getter.thread_time_rusage r q used s t info h c =
    ap some (rw (start-rusage r used s h, stop-rusage q used t h))
call_get-measured Getter.papi r q used s t info h c =
    getter_papi-measured r q used s t info h (c refl)
