-- ===== src/Measure.antt =====
-- src/c/measure.c: what ubench_measure_start, _sample and _stop write into a snapshot. The clocks,
-- getrusage, the counters and PAPI are read once for each snapshot: `Readings` holds what they give.
pub mod Values
pub mod Sampled
use java_ubench_agent.Prelude.{
  ℕ, ◌%◌, ◌^◌, ℤ, Bool, List, [], ◌∷◌, bit_and, ltb, if◌then◌else◌, sign_extend,
}
use java_ubench_agent.Events.Types.{
  Timespec, Rusage, Snapshot, type_start, type_end, backend_resource_usage, backend_papi,
  backend_sys_wallclock, backend_jvm_compilations, backend_sys_threadtime,
}

-- `compilations` and `gcs` are counter_compilation_total and counter_gc_total, of type int. A PAPI
-- call gives its return code and the counters that it stores.
pub record Readings : Type 0 where
  pub rusage : Rusage
  pub compilations : ℕ
  pub gcs : ℕ
  pub thread_clock : Timespec
  pub wall_clock : Timespec
  pub papi_start : ℤ
  pub papi_read : ℤ × List ℕ
  pub papi_stop : ℤ × List ℕ

-- `(used_backends & backend) > 0`
unfoldable pub uses : ℕ → ℕ → Bool
uses used_backends backend = ltb 0 (bit_and used_backends backend)

-- PAPI stores its counters at the front of the array, which is long enough for them.
unfoldable pub store : List ℕ → List ℕ → List ℕ
store [] old = old
store (v ∷ vs) [] = []
store (v ∷ vs) (o ∷ old) = v ∷ store vs old

-- The blocks `if ((config->used_backends & ...) > 0) { ... }` of the three functions.
unfoldable pub take_rusage : Readings → ℕ → Snapshot → Snapshot
unfolding uses
take_rusage r used s =
    if uses used backend_resource_usage then record s { resource_usage = r.rusage } else s

unfoldable pub take_compilations : Readings → ℕ → Snapshot → Snapshot
unfolding uses
take_compilations r used s =
    if uses used backend_jvm_compilations
    then record s { compilations = sign_extend (r.compilations % 2 ^ 32) }
    else s

unfoldable pub take_threadtime : Readings → ℕ → Snapshot → Snapshot
unfolding uses
take_threadtime r used s =
    if uses used backend_sys_threadtime then record s { threadtime = r.thread_clock } else s

unfoldable pub take_papi_read : Readings → ℕ → Snapshot → Snapshot
unfolding uses store
take_papi_read r used s =
    if uses used backend_papi
    then record s { papi_rc1 = r.papi_read.0; papi_events = store r.papi_read.1 s.papi_events }
    else s

unfoldable pub take_papi_start : Readings → ℕ → Snapshot → Snapshot
unfolding uses
take_papi_start r used s =
    if uses used backend_papi then record s { papi_rc2 = r.papi_start } else s

unfoldable pub take_papi_stop : Readings → ℕ → Snapshot → Snapshot
unfolding uses store
take_papi_stop r used s =
    if uses used backend_papi
    then record s { papi_rc1 = r.papi_stop.0; papi_events = store r.papi_stop.1 s.papi_events }
    else s

unfoldable pub take_wallclock : Readings → ℕ → Snapshot → Snapshot
unfolding uses
take_wallclock r used s =
    if uses used backend_sys_wallclock then record s { timestamp = r.wall_clock } else s

unfoldable pub do_snapshot : Readings → ℕ → Snapshot → Snapshot
unfolding take_rusage take_compilations take_threadtime take_papi_read take_wallclock
do_snapshot r used s0 =
    let s1 = take_rusage r used s0 in
    let s2 = take_compilations r used s1 in
    let s3 : Snapshot = record s2 { garbage_collections = r.gcs % 2 ^ 32 } in
    let s4 = take_threadtime r used s3 in
    let s5 = take_papi_read r used s4 in take_wallclock r used s5

unfoldable pub ubench_measure_start : Readings → ℕ → Snapshot → Snapshot
unfolding take_papi_start do_snapshot
ubench_measure_start r used s0 =
    let s1 = take_papi_start r used s0 in
    let s2 : Snapshot = record s1 { type = type_start } in do_snapshot r used s2

unfoldable pub ubench_measure_sample : Readings → ℤ → ℕ → Snapshot → Snapshot
unfolding do_snapshot
ubench_measure_sample r user_id used s0 =
    let s1 : Snapshot = record s0 { type = user_id } in do_snapshot r used s1

unfoldable pub ubench_measure_stop : Readings → ℕ → Snapshot → Snapshot
unfolding take_wallclock take_papi_stop take_threadtime take_compilations take_rusage
ubench_measure_stop r used s0 =
    let s1 = take_wallclock r used s0 in
    let s2 = take_papi_stop r used s1 in
    let s3 = take_threadtime r used s2 in
    let s4 = take_compilations r used s3 in
    let s5 : Snapshot = record s4 { garbage_collections = r.gcs % 2 ^ 32 } in
    let s6 = take_rusage r used s5 in record s6 { type = type_end }
