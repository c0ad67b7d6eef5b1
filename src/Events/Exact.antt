-- ===== src/Events/Exact.antt =====
-- The clock values of src/c/events.c in natural numbers: where nothing wraps around.
use java_ubench_agent.Prelude.{ℕ, ◌+◌, ◌-◌, ◌*◌, ◌^◌, ◌≤◌, ◌<◌, ◌≡◌, arith}
use java_ubench_agent.Events.Types.{Timespec, Timeval, Rusage, Snapshot}
use java_ubench_agent.Events.Getters.{
  timespec_to_nanos, timespec_diff_ns, timeval_diff_us, timestamp_diff_ns, getter_wall_clock_time,
  getter_thread_time, getter_thread_time_rusage,
}

-- The nanoseconds of a time and the microseconds of another, without a bound.
abbrev pub nanos : Timespec → ℕ
nanos t = t.tv_sec * 1000000000 + t.tv_nsec

abbrev pub micros : Timeval → ℕ
micros t = t.tv_sec * 1000000 + t.tv_usec

abbrev pub used_micros : Rusage → ℕ
used_micros r = micros r.ru_utime + micros r.ru_stime

-- A clock below 2^33 seconds, as clock_gettime gives it, and processor times below 2^32 seconds.
pub record IsClock (t : Timespec) : Type 0 where
  pub seconds : t.tv_sec < 2 ^ 33
  pub nanoseconds : t.tv_nsec < 1000000000

pub record IsUsage (t : Timeval) : Type 0 where
  pub seconds : t.tv_sec < 2 ^ 32
  pub microseconds : t.tv_usec < 1000000

-- The clocks of two snapshots, the first taken before the second.
pub record InOrder (start end : Snapshot) : Type 0 where
  pub wall_start : IsClock start.timestamp
  pub wall_end : IsClock end.timestamp
  pub wall : nanos start.timestamp ≤ nanos end.timestamp
  pub thread_start : IsClock start.threadtime
  pub thread_end : IsClock end.threadtime
  pub thread : nanos start.threadtime ≤ nanos end.threadtime
  pub user_start : IsUsage start.resource_usage.ru_utime
  pub user_end : IsUsage end.resource_usage.ru_utime
  pub user : micros start.resource_usage.ru_utime ≤ micros end.resource_usage.ru_utime
  pub system_start : IsUsage start.resource_usage.ru_stime
  pub system_end : IsUsage end.resource_usage.ru_stime
  pub system : micros start.resource_usage.ru_stime ≤ micros end.resource_usage.ru_stime

timespec_diff-exact :
    (a b : Timespec)
    → IsClock a
    → IsClock b
    → nanos a ≤ nanos b
    → timespec_diff_ns a b ≡ nanos b - nanos a
unfolding timespec_diff_ns
timespec_diff-exact a b ha hb le =
    omega (arith, ha.seconds, ha.nanoseconds, hb.seconds, hb.nanoseconds)

timespec_to_nanos-lt :
    (a : Timespec) → IsClock a → (timespec_to_nanos a ≡ nanos a) × (nanos a < 2 ^ 63)
unfolding timespec_to_nanos
timespec_to_nanos-lt a h =
    (omega (arith, h.seconds, h.nanoseconds), omega (arith, h.seconds, h.nanoseconds))

timeval_diff-exact :
    (a b : Timeval)
    → IsUsage a
    → IsUsage b
    → micros a ≤ micros b
    → timeval_diff_us a b ≡ micros b - micros a
unfolding timeval_diff_us
timeval_diff-exact a b ha hb le =
    omega (arith, ha.seconds, ha.microseconds, hb.seconds, hb.microseconds)

-- For snapshots whose clocks are in order, with wall clock and thread clock below 2^33 seconds and
-- the processor times of getrusage below 2^32 seconds, the values of the three time events are the
-- exact times between the snapshots in nanoseconds, and below 2^63: as a long long they are not
-- negative, and nothing wraps around.
pub times-exact :
    (start end : Snapshot)
    → InOrder start end
    → (getter_wall_clock_time start end ≡ nanos end.timestamp - nanos start.timestamp)
      × (getter_thread_time start end ≡ nanos end.threadtime - nanos start.threadtime)
      × (getter_thread_time_rusage start end
          ≡ (used_micros end.resource_usage - used_micros start.resource_usage) * 1000)
      × (getter_wall_clock_time start end < 2 ^ 63)
      × (getter_thread_time start end < 2 ^ 63)
      × (getter_thread_time_rusage start end < 2 ^ 63)
unfolding getter_wall_clock_time timestamp_diff_ns getter_thread_time getter_thread_time_rusage
times-exact start end h = (
  wall,
  thread,
  usage,
  omega (arith, wall, (timespec_to_nanos-lt end.timestamp h.wall_end).1),
  omega (arith, thread, (timespec_to_nanos-lt end.threadtime h.thread_end).1),
  omega (arith, usage, user_lt, system_lt),
)
  where
    wall : getter_wall_clock_time start end ≡ nanos end.timestamp - nanos start.timestamp
    wall = timespec_diff-exact start.timestamp end.timestamp h.wall_start h.wall_end h.wall

    thread : getter_thread_time start end ≡ nanos end.threadtime - nanos start.threadtime
    thread =
        timespec_diff-exact start.threadtime end.threadtime h.thread_start h.thread_end h.thread

    user_lt : micros end.resource_usage.ru_utime < 4294967296000000
    user_lt = omega (arith, h.user_end.seconds, h.user_end.microseconds)

    system_lt : micros end.resource_usage.ru_stime < 4294967296000000
    system_lt = omega (arith, h.system_end.seconds, h.system_end.microseconds)

    usage :
        getter_thread_time_rusage start end
        ≡ (used_micros end.resource_usage - used_micros start.resource_usage) * 1000
    usage = omega (
      arith,
      timeval_diff-exact start.resource_usage.ru_utime end.resource_usage.ru_utime h.user_start
          h.user_end h.user,
      timeval_diff-exact start.resource_usage.ru_stime end.resource_usage.ru_stime h.system_start
          h.system_end h.system,
      user_lt,
      system_lt,
      h.user,
      h.system,
    )
