-- ===== src/Events/Getters.antt =====
-- src/c/events.c: the functions that read a value out of one snapshot, or out of two.
use java_ubench_agent.Prelude.{
  ℕ, ◌*◌, ℤ, pos, int_eq, to_bits, add64, sub64, mul64, Bool, true, Option, none, some, get_elem?,
  not, if◌then◌else◌,
}
use java_ubench_agent.Events.Types.{
  Timespec, Timeval, Snapshot, RawGetter, Getter, EventInfo, raw_wall_clock_time, raw_thread_time,
  raw_jvm_compilations, raw_context_switch_forced, raw_thread_time_rusage, raw_papi,
  wall_clock_time, thread_time, jvm_compilations, context_switch_forced, thread_time_rusage, papi,
}

unfoldable pub ubench_event_init : Bool
ubench_event_init = true

-- TIMESPEC_TO_NANOS
unfoldable pub timespec_to_nanos : Timespec → ℕ
timespec_to_nanos val = add64 (mul64 val.tv_sec (1000 * 1000 * 1000)) val.tv_nsec

-- TIMEVAL_TO_MICROS
unfoldable pub timeval_to_micros : Timeval → ℕ
timeval_to_micros val = add64 (mul64 val.tv_sec (1000 * 1000)) val.tv_usec

unfoldable pub timespec_diff_ns : Timespec → Timespec → ℕ
timespec_diff_ns a b =
    let sec_diff = sub64 b.tv_sec a.tv_sec in
    let nanosec_diff = sub64 b.tv_nsec a.tv_nsec in
    add64 (mul64 sec_diff (1000 * 1000 * 1000)) nanosec_diff

unfoldable pub timeval_diff_us : Timeval → Timeval → ℕ
timeval_diff_us a b =
    let sec_diff = sub64 b.tv_sec a.tv_sec in
    let usec_diff = sub64 b.tv_usec a.tv_usec in add64 (mul64 sec_diff (1000 * 1000)) usec_diff

unfoldable pub timestamp_diff_ns : Timespec → Timespec → ℕ
unfolding timespec_diff_ns
timestamp_diff_ns a b = timespec_diff_ns a b

unfoldable pub getter_wall_clock_time : Snapshot → Snapshot → ℕ
unfolding timestamp_diff_ns
getter_wall_clock_time start end = timestamp_diff_ns start.timestamp end.timestamp

unfoldable pub getter_raw_wall_clock_time : Snapshot → ℕ
unfolding timespec_to_nanos
getter_raw_wall_clock_time value = timespec_to_nanos value.timestamp

unfoldable pub getter_thread_time : Snapshot → Snapshot → ℕ
unfolding timespec_diff_ns
getter_thread_time start end = timespec_diff_ns start.threadtime end.threadtime

unfoldable pub getter_raw_thread_time : Snapshot → ℕ
getter_raw_thread_time value =
    add64 (mul64 value.threadtime.tv_sec (1000 * 1000 * 1000)) value.threadtime.tv_nsec

unfoldable pub getter_jvm_compilations : Snapshot → Snapshot → ℕ
getter_jvm_compilations start end = sub64 end.compilations start.compilations

unfoldable pub getter_raw_jvm_compilations : Snapshot → ℕ
getter_raw_jvm_compilations value = value.compilations

unfoldable pub getter_context_switch_forced : Snapshot → Snapshot → ℕ
getter_context_switch_forced start end =
    sub64 end.resource_usage.ru_nivcsw start.resource_usage.ru_nivcsw

unfoldable pub getter_raw_context_switch_forced : Snapshot → ℕ
getter_raw_context_switch_forced value = value.resource_usage.ru_nivcsw

unfoldable pub getter_thread_time_rusage : Snapshot → Snapshot → ℕ
unfolding timeval_diff_us
getter_thread_time_rusage start end =
    let user_us = timeval_diff_us start.resource_usage.ru_utime end.resource_usage.ru_utime in
    let system_us = timeval_diff_us start.resource_usage.ru_stime end.resource_usage.ru_stime in
    mul64 (add64 user_us system_us) 1000

unfoldable pub getter_raw_thread_time_rusage : Snapshot → ℕ
unfolding timeval_to_micros
getter_raw_thread_time_rusage value =
    let user_us = timeval_to_micros value.resource_usage.ru_utime in
    let system_us = timeval_to_micros value.resource_usage.ru_stime in
    mul64 (add64 user_us system_us) 1000

-- `return rc` from a function that returns long long
abbrev pub rc_value : ℤ → Option ℕ
rc_value rc = some (to_bits 64 rc)

-- PAPI_OK
abbrev pub papi_ok : ℤ
papi_ok = pos 0

abbrev pub is_papi_ok : ℤ → Bool
is_papi_ok rc = int_eq rc papi_ok

-- end - start of one counter; `none` is a read past the end of `papi_events`.
abbrev pub counter_diff : Option ℕ → Option ℕ → Option ℕ
counter_diff (some e) (some s) = some (sub64 e s)
counter_diff (some e) none = none
counter_diff none _ = none

-- Both branches on the sign of the result return the result.
unfoldable pub getter_papi : Snapshot → Snapshot → EventInfo → Option ℕ
getter_papi start end info =
    if not (is_papi_ok start.papi_rc1)
    then rc_value start.papi_rc1
    else if not (is_papi_ok start.papi_rc2)
    then rc_value start.papi_rc2
    else if not (is_papi_ok end.papi_rc1)
    then rc_value end.papi_rc1
    else counter_diff (get_elem? end.papi_events info.papi_index)
        (get_elem? start.papi_events info.papi_index)

unfoldable pub getter_raw_papi : Snapshot → EventInfo → Option ℕ
getter_raw_papi value info =
    if not (is_papi_ok value.papi_rc1)
    then rc_value value.papi_rc1
    else if not (is_papi_ok value.papi_rc2)
    then rc_value value.papi_rc2
    else get_elem? value.papi_events info.papi_index

-- The call through the pointer `op_get`; `none` is undefined behaviour.
unfoldable pub call_get : Getter → Snapshot → Snapshot → EventInfo → Option ℕ
unfolding getter_wall_clock_time getter_thread_time getter_jvm_compilations
    getter_context_switch_forced getter_thread_time_rusage getter_papi
call_get wall_clock_time start end info = some (getter_wall_clock_time start end)
call_get thread_time start end info = some (getter_thread_time start end)
call_get jvm_compilations start end info = some (getter_jvm_compilations start end)
call_get context_switch_forced start end info = some (getter_context_switch_forced start end)
call_get thread_time_rusage start end info = some (getter_thread_time_rusage start end)
call_get papi start end info = getter_papi start end info

-- The call through the pointer `op_get_raw`.
unfoldable pub call_get_raw : RawGetter → Snapshot → EventInfo → Option ℕ
unfolding getter_raw_wall_clock_time getter_raw_thread_time getter_raw_jvm_compilations
    getter_raw_context_switch_forced getter_raw_thread_time_rusage getter_raw_papi
call_get_raw raw_wall_clock_time value info = some (getter_raw_wall_clock_time value)
call_get_raw raw_thread_time value info = some (getter_raw_thread_time value)
call_get_raw raw_jvm_compilations value info = some (getter_raw_jvm_compilations value)
call_get_raw raw_context_switch_forced value info = some (getter_raw_context_switch_forced value)
call_get_raw raw_thread_time_rusage value info = some (getter_raw_thread_time_rusage value)
call_get_raw raw_papi value info = getter_raw_papi value info

-- `event->op_get(start, end, event)`; a NULL pointer is undefined behaviour.
unfoldable pub event_value : EventInfo → Snapshot → Snapshot → Option ℕ
unfolding call_get
event_value event start end = elim event.op_get [
  | none ↦ none
  | some getter ↦ call_get getter start end event
]

-- `event->op_get_raw(value, event)`
unfoldable pub event_raw_value : EventInfo → Snapshot → Option ℕ
unfolding call_get_raw
event_raw_value event value = elim event.op_get_raw [
  | none ↦ none
  | some getter ↦ call_get_raw getter value event
]
