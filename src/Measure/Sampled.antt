-- ===== src/Measure/Sampled.antt =====
-- The raw values that ubench_measure_sample stores in a fresh snapshot (src/c/measure.c, with the
-- getters of src/c/events.c).
use java_ubench_agent.Prelude.{
  ℕ, ◌%◌, ◌^◌, ◌*◌, ◌+◌, ◌≤◌, ◌<◌, ℤ, true, not, Option, some, ◌≡◌, refl, ap, arith, sign_extend,
  get_elem?, get_elem?-lt, length, if◌then◌else◌,
}
use java_ubench_agent.Events.Types.{
  Snapshot, EventInfo, Getter, zero_snapshot, max_papi_events, backend_papi, backend_resource_usage,
  backend_sys_wallclock, backend_jvm_compilations, backend_sys_threadtime,
}
use java_ubench_agent.Events.Getters.{
  call_get_raw, is_papi_ok, rc_value, timespec_to_nanos, timeval_to_micros, getter_raw_papi,
}
use java_ubench_agent.Events.Resolution.{raw_of, backend_of}
use java_ubench_agent.Measure.{Readings, uses, store, ubench_measure_sample}
use java_ubench_agent.Measure.Values.{get_elem?-store}

-- What an event reads at one moment. For a PAPI event: the error of PAPI_read, or the counter.
unfoldable pub sampled : Getter → Readings → EventInfo → Option ℕ
unfolding timespec_to_nanos timeval_to_micros
sampled Getter.wall_clock_time r info = some (timespec_to_nanos r.wall_clock)
sampled Getter.thread_time r info = some (timespec_to_nanos r.thread_clock)
sampled Getter.jvm_compilations r info = some (sign_extend (r.compilations % 2 ^ 32))
sampled Getter.context_switch_forced r info = some r.rusage.ru_nivcsw
sampled Getter.thread_time_rusage r info = some (
    ((timeval_to_micros r.rusage.ru_utime + timeval_to_micros r.rusage.ru_stime) % 2 ^ 64 * 1000)
    % 2 ^ 64)
sampled Getter.papi r info =
    if not (is_papi_ok r.papi_read.0)
    then rc_value r.papi_read.0
    else get_elem? r.papi_read.1 info.papi_index

-- PAPI_read stored a counter at the event's index, and no more counters than there is room.
pub record IsCounted (r : Readings) (info : EventInfo) : Type 0 where
  pub room : length r.papi_read.1 ≤ max_papi_events
  pub index : info.papi_index < length r.papi_read.1

module _ (r : Readings) (user_id : ℤ) (used : ℕ) where
  abbrev sample_of : Snapshot
  sample_of = ubench_measure_sample r user_id used zero_snapshot

  sample-timestamp : uses used backend_sys_wallclock ≡ true → sample_of.timestamp ≡ r.wall_clock
  unfolding ubench_measure_sample
  sample-timestamp h = ground arith

  sample-threadtime :
      uses used backend_sys_threadtime ≡ true → sample_of.threadtime ≡ r.thread_clock
  unfolding ubench_measure_sample
  sample-threadtime h = ground arith

  sample-compilations :
      uses used backend_jvm_compilations ≡ true
      → sample_of.compilations ≡ sign_extend (r.compilations % 2 ^ 32)
  unfolding ubench_measure_sample
  sample-compilations h = ground arith

  sample-rusage : uses used backend_resource_usage ≡ true → sample_of.resource_usage ≡ r.rusage
  unfolding ubench_measure_sample
  sample-rusage h = ground arith

  sample-papi :
      uses used backend_papi ≡ true
      → (sample_of.papi_rc1 ≡ r.papi_read.0)
        × (is_papi_ok sample_of.papi_rc2 ≡ true)
        × (sample_of.papi_events ≡ store r.papi_read.1 zero_snapshot.papi_events)
  unfolding ubench_measure_sample
  sample-papi h = (ground arith, ground arith, ground arith)

  getter_raw_papi-sampled :
      (info : EventInfo)
      → uses used backend_papi ≡ true
      → IsCounted r info
      → getter_raw_papi sample_of info ≡ sampled Getter.papi r info
  unfolding getter_raw_papi sampled
  getter_raw_papi-sampled info h c =
      let (rc1, rc2, events) = sample-papi h in
      let (v, at) = get_elem?-lt r.papi_read.1 info.papi_index c.index in
      rw
        (
          rc1,
          rc2,
          events,
          at,
          get_elem?-store r.papi_read.1 zero_snapshot.papi_events info.papi_index c.room at,
        )
        refl

  -- Of an event whose backend the event set uses, the raw value of a sample in a fresh snapshot is
  -- what the event reads.
  pub call_get_raw-sampled :
      (g : Getter) (info : EventInfo)
      → uses used (backend_of g) ≡ true
      → (g ≡ Getter.papi → IsCounted r info)
      → call_get_raw (raw_of g) sample_of info ≡ sampled g r info
  unfolding call_get_raw sampled
  call_get_raw-sampled Getter.wall_clock_time info h c = ap some (rw (sample-timestamp h) refl)
  call_get_raw-sampled Getter.thread_time info h c = ap some (rw (sample-threadtime h) refl)
  call_get_raw-sampled Getter.jvm_compilations info h c = ap some (sample-compilations h)
  call_get_raw-sampled Getter.context_switch_forced info h c =
      ap some (ap (λ u. u.ru_nivcsw) (sample-rusage h))
  call_get_raw-sampled Getter.thread_time_rusage info h c = ap some (rw (sample-rusage h) refl)
  call_get_raw-sampled Getter.papi info h c = getter_raw_papi-sampled info h (c refl)
