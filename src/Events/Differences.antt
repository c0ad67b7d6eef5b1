-- ===== src/Events/Differences.antt =====
-- The value of an event over two snapshots against its values in each (src/c/events.c).
use java_ubench_agent.Prelude.{ℕ, Bool, true, some, ◌≡◌, sym, ◌∙◌, arith, sub64}
use java_ubench_agent.Strutil.{Text}
use java_ubench_agent.Events.Types.{Timespec, Timeval, Snapshot, EventInfo, Getter, RawGetter}
use java_ubench_agent.Events.Getters.{
  is_papi_ok, call_get, call_get_raw, event_value, event_raw_value, timespec_diff_ns,
  timespec_to_nanos, timeval_diff_us, timeval_to_micros, getter_thread_time, getter_raw_thread_time,
  getter_thread_time_rusage, getter_raw_thread_time_rusage, getter_papi, getter_raw_papi,
}
use java_ubench_agent.Events.Papi.{Papi}
use java_ubench_agent.Events.Table.{ubench_event_resolve}
use java_ubench_agent.Events.Resolution.{raw_of, resolve-IsResolved}

timespec_diff_ns-eq :
    (a b : Timespec) → timespec_diff_ns a b ≡ sub64 (timespec_to_nanos b) (timespec_to_nanos a)
unfolding timespec_diff_ns timespec_to_nanos
timespec_diff_ns-eq a b = omega arith

timeval_diff_us-eq :
    (a b : Timeval) → timeval_diff_us a b ≡ sub64 (timeval_to_micros b) (timeval_to_micros a)
unfolding timeval_diff_us timeval_to_micros
timeval_diff_us-eq a b = omega arith

thread_time-eq :
    (start end : Snapshot)
    → getter_thread_time start end
      ≡ sub64 (getter_raw_thread_time end) (getter_raw_thread_time start)
unfolding getter_thread_time getter_raw_thread_time timespec_to_nanos
thread_time-eq start end = timespec_diff_ns-eq start.threadtime end.threadtime

thread_time_rusage-eq :
    (start end : Snapshot)
    → getter_thread_time_rusage start end
      ≡ sub64 (getter_raw_thread_time_rusage end) (getter_raw_thread_time_rusage start)
unfolding getter_thread_time_rusage getter_raw_thread_time_rusage
thread_time_rusage-eq start end = omega (
  arith,
  timeval_diff_us-eq start.resource_usage.ru_utime end.resource_usage.ru_utime,
  timeval_diff_us-eq start.resource_usage.ru_stime end.resource_usage.ru_stime,
)

-- Every PAPI call that filled the two snapshots reported PAPI_OK.
pub record PapiOk (start end : Snapshot) : Type 0 where
  pub start1 : is_papi_ok start.papi_rc1 ≡ true
  pub start2 : is_papi_ok start.papi_rc2 ≡ true
  pub end1 : is_papi_ok end.papi_rc1 ≡ true
  pub end2 : is_papi_ok end.papi_rc2 ≡ true

papi-eq :
    (start end : Snapshot) (info : EventInfo) {a b : ℕ}
    → PapiOk start end
    → getter_raw_papi start info ≡ some a
    → getter_raw_papi end info ≡ some b
    → getter_papi start end info ≡ some (sub64 b a)
unfolding getter_papi getter_raw_papi
papi-eq start end info ok ha hb = ground arith

call_get-eq :
    (g : Getter) (start end : Snapshot) (info : EventInfo) {a b : ℕ}
    → PapiOk start end
    → call_get_raw (raw_of g) start info ≡ some a
    → call_get_raw (raw_of g) end info ≡ some b
    → call_get g start end info ≡ some (sub64 b a)
unfolding call_get call_get_raw
call_get-eq Getter.wall_clock_time start end info ok ha hb =
    ground (arith, timespec_diff_ns-eq start.timestamp end.timestamp)
call_get-eq Getter.thread_time start end info ok ha hb = ground (arith, thread_time-eq start end)
call_get-eq Getter.jvm_compilations start end info ok ha hb = ground arith
call_get-eq Getter.context_switch_forced start end info ok ha hb = ground arith
call_get-eq Getter.thread_time_rusage start end info ok ha hb =
    ground (arith, thread_time_rusage-eq start end)
call_get-eq Getter.papi start end info ok ha hb = papi-eq start end info ok ha hb

pub event_value-call_get :
    (g : Getter) (info : EventInfo) (start end : Snapshot)
    → info.op_get ≡ some g
    → event_value info start end ≡ call_get g start end info
unfolding event_value
event_value-call_get g info start end h = ground arith

pub event_raw_value-call_get_raw :
    (g : RawGetter) (info : EventInfo) (value : Snapshot)
    → info.op_get_raw ≡ some g
    → event_raw_value info value ≡ call_get_raw g value info
unfolding event_raw_value
event_raw_value-call_get_raw g info value h = ground arith

-- For an event that ubench_event_resolve resolved, and two snapshots whose PAPI calls all reported
-- PAPI_OK, the value over both is the difference of the raw value at the end and the raw value at
-- the start, modulo 2 ^ 64, wherever both raw values can be read.
pub event_value-difference :
    (papi : Papi) (dup_ok : Bool) (event : Text) (blank : EventInfo) {info : EventInfo}
    → ubench_event_resolve papi dup_ok (some event) blank ≡ (true, info)
    → (start end : Snapshot) → PapiOk start end
    → {a b : ℕ} → event_raw_value info start ≡ some a
    → event_raw_value info end ≡ some b
    → event_value info start end ≡ some (sub64 b a)
event_value-difference papi dup_ok event blank {info} e start end ok ha hb =
    let r = resolve-IsResolved papi dup_ok event blank e in
    event_value-call_get r.getter info start end r.op_get
    ∙ call_get-eq r.getter start end info ok
        (sym (event_raw_value-call_get_raw (raw_of r.getter) info start r.op_get_raw) ∙ ha)
        (sym (event_raw_value-call_get_raw (raw_of r.getter) info end r.op_get_raw) ∙ hb)
